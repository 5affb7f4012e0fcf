-- ===== src/Lib.antt =====
-- A verification library for the Python programs of this repository, which configures and deploys a
-- home server: the check of compose files that gates a merge, the weekly update of flake.lock with
-- the check of its result, the relay of alerts, the filing of tickets, and the stand-in for a
-- Minecraft server that the tests run. Every path below starts at the repository's root.
--
-- Parts and files
--   Base          What the programs use of Python: texts as lists of code points (Base/Texts),
--                 integers with int() and range() (Base/Integers), dicts and sets as lists
--                 (Base/Dict, Base/Lists), sorted() (Base/Sort), JSON and YAML values with ==, bool(),
--                 repr() and get() (Base/Value), exceptions as values (Base/Exceptions).
--                 What a loop that reports nothing means (Base/Loops).
--   Compose       scripts/check_compose.py.
--     Port        port_range and parse_port.            Path     os.path.normpath.
--     Volume      volume_source and bind_source.        Problem  the rules, a stack of the manifest.
--     PortRules   check_file on one `ports:` entry.     VolumeRules  on one `volumes:` entry.
--     File        check_file on services, networks and the whole document.
--     Run         declared_file and main: the loops over stacks and files, the exit status.
--   Flake         scripts/flake_update.py.
--     Lock        direct_inputs, MOVABLE, lock_problems.  Github   branch_of to cooled_commit.
--     Check       cmd_check with the text of the pull request.     Carry     cmd_carry.
--     Cves        vulnix, cve_diff.     Closure   closure_report.     Update    cmd_update.
--   Relay         modules/observability/alert-relay.py.
--     Lasted      parse_time, how_long.    Messages  messages.    Posts  handle to do_POST.
--   Issues        scripts/file_issues.py.
--     Paged       expect, paged.           Tickets   check.
--     Program     req, token, and how a run is composed of its steps.
--     Rewriting   the references in a body.          Filing    main.
--     Listings    what main reads from GitHub's listings.
--     Data        scripts/tickets.py: t (Data/Body), and the tickets by phase.
--   Minecraft     tests/fake-minecraft.py.
--     Varint      varint, read_varint.     Packets   read_packet, send.     Server   handle.
--   Tests         Runs of the model, and each theorem at a concrete input.
--
-- How the code is read
--   A function that may raise returns a Result with the exception's class; a loop that appends to
--   `problems` and adds to `public` returns what its rounds find, in order. The loops over the
--   entries of a file, the files and the stacks are recursions on lists, so no fuel is needed.
--   A recursion on fuel writes a number in decimal (Base/Texts, show): it gets n + 1 rounds for n,
--   and each round divides by ten (int-show of Base/Integers/Decimal shows that all digits are there).
--   The loop of paged ends with a round more than the pages that are full (paged-all of
--   Issues/Paged/Complete). varint gets n + 1 rounds and divides by 128 in each, and every round of
--   the loops of the stand-in server, read_packet's too, takes a byte from the connection
--   (Minecraft/Server/Ends).
--   A duration is rounded to a float of 53 binary digits, and then to an integer (seconds of
--   Relay/Lasted).
--   A request to the relay is a trace: the calls of the sender, the log, and how it ended. The result
--   of the n-th call is an argument, and so is what GitHub's API answers for a path.
--   A run of scripts/file_issues.py is a list of events: a request, the listing of a path, a line
--   printed. What GitHub answers is any function of the events before and of the request. The listing
--   of a path is one event, and the answer to each of its pages may be another.
--   A set is a list without repetitions. Where Python runs through a set in an order of its own, the
--   model takes the order of the two dicts, so problems may come in another order.
--   Opaque, and so arguments: yaml.safe_load with the decoding of a file, the files found below
--   STACKS_DIR with their bytes, and the files that the manifest names; json.loads, the GitHub API,
--   datetime.fromisoformat, the clock, and the texts of dates and exceptions; the sender of alerts.
--
-- Left out
--   Running programs, and reading and writing files: what they give is an argument. The HTTP server
--   of the relay and its threads; a request of scripts/file_issues.py that raises URLError; the
--   tests' scripts; the accept loop of tests/fake-minecraft.py.
--   Floats and keys that are no text in YAML values; digits and white space of int() outside ASCII;
--   the escapes of repr() for characters that do not print; what print() raises for a character that
--   its stream cannot encode; the parsing of the command line. The manifest is read as the
--   record that the Nix option `homeserver.stacksManifest` fixes.
--   Where a compose file has a list in place of a dict, the model raises AttributeError at the first
--   method call; Python may raise TypeError a line before.
pub mod Base
pub mod Compose
pub mod Flake
pub mod Issues
pub mod Minecraft
pub mod Relay
pub mod Tests
