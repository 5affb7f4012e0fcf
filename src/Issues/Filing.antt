-- ===== src/Issues/Filing.antt =====
-- `main` of scripts/file_issues.py: milestones, labels and issues that GitHub lacks are created, and then
-- the references in the bodies are rewritten. A program of Issues/Program.antt.
-- Parameters: `digit`, the characters that \d matches; `server`, what GitHub answers; `rounds`, a bound on the
-- pages of a listing; `environ`, the environment's variables; the data of scripts/tickets.py.
pub mod Bodies
pub mod Rerun
pub mod Created
pub mod Checked
pub mod Unchanged
pub mod Members
pub mod Numbers
pub mod Patches
use nixos_homeserver.Base.{
  ℕ, zero, suc, ◌+◌, Bool, true, false, not, ◌||◌, Option, none, some, List, [], ◌∷◌, ◌++◌,
  if◌then◌else◌, ◌==◌, list_eq, nat_eq, contains, map, Text, codes, show, split, join, ℤ, pos,
  Exception, Result, ok, err, type_error, key_error,
}
use nixos_homeserver.Base.Lists.{length}
use nixos_homeserver.Base.Dict.{Dict, lookup, insert, keys}
use nixos_homeserver.Base.Value.{
  Value, null, bool, num, str, arr, obj, Items, nil, cons, Fields, end, field, truthy, index, py_eq,
  repr, str_of,
}
use nixos_homeserver.Base.Value.Access.{is_in}
use nixos_homeserver.Issues.Paged.{Response}
use nixos_homeserver.Issues.Tickets.{Ticket, phase_of, check_tickets}
use nixos_homeserver.Issues.Program.{
  Event, Request, Program, ◌>>=◌, ◌>>◌, return, exit, print, run, token, request, list_all,
}
use nixos_homeserver.Issues.Rewriting.{rewritten}
use nixos_homeserver.Issues.Listings.{Label, TextSet, issues, item, names, numbers}

pub texts : List Text → Items
texts [] = nil
texts (s ∷ ss) = cons (str s) (texts ss)

-- `source or ""`, as an argument of re.sub
unfoldable pub source_text : Value → Result Text
source_text (str s) = ok s
source_text v = if truthy v then err type_error else ok []

module _ (server : List Event → Request → Response) (tok : Text) where
  -- One round of the loop over MILESTONES: `have` and `ms_num` after it
  unfoldable pub file_milestone :
      ℕ
      → Text
      → Text
      → Dict Text Value × Dict Text Value
      → Program (Dict Text Value × Dict Text Value)
  unfolding item
  file_milestone i title description (have, ms_num) =
      if contains (keys have) title
      then (do number ← run (item have title); return (have, insert (show i) number ms_num))
      else (do
        body ←
            request server (201 ∷ []) (codes "POST") (codes "/milestones")
              (some (
                obj (
                  field (codes "title") (str title)
                    (field (codes "description") (str description) end))))
              tok (codes "create milestone " ++ repr (str title))
        number ← run (index body (codes "number"))
        print (codes "milestone created: " ++ title)
        return (insert title number have, insert (show i) number ms_num))

  unfoldable pub file_milestones :
      ℕ
      → List (Text × Text)
      → Dict Text Value × Dict Text Value
      → Program (Dict Text Value × Dict Text Value)
  unfolding file_milestone
  file_milestones i [] state = return state
  file_milestones i ((title, description) ∷ milestones) state =
      file_milestone i title description state >>= file_milestones (suc i) milestones

  unfoldable pub file_label : TextSet → Label → Program Unit
  file_label have_labels label = if contains (keys have_labels) label.name then return tt else (do
    request server (201 ∷ 422 ∷ []) (codes "POST") (codes "/labels")
        (some (
          obj (
            field (codes "name") (str label.name) (
              field (codes "color") (str label.color)
                (field (codes "description") (str label.description) end)))))
        tok (codes "create label " ++ repr (str label.name))
    print (codes "label created: " ++ label.name))

  unfoldable pub file_labels : TextSet → List Label → Program Unit
  unfolding file_label
  file_labels have_labels [] = return tt
  file_labels have_labels (label ∷ labels) =
      file_label have_labels label >> file_labels have_labels labels

module _ (digit : ℕ → Bool) (server : List Event → Request → Response) (tok : Text)
    (existing : Dict Text Value) where
  -- One round of the first loop over TICKETS: `id_to_num` and `created` after it
  unfoldable pub file_issue :
      Dict Text Value → Ticket → Dict Text Value × TextSet → Program (Dict Text Value × TextSet)
  unfolding item texts
  file_issue ms_num t (id_to_num, created) = elim (lookup t.title existing) [
    | some issue ↦ do
      number ← run (index issue (codes "number"))
      return (insert t.id number id_to_num, created)
    | none ↦ do
      milestone ← run (item ms_num (phase_of t.id))
      resp ←
          request server (201 ∷ []) (codes "POST") (codes "/issues")
            (some (
              obj (
                field (codes "title") (str t.title) (
                  field (codes "body") (str t.body) (
                    field (codes "labels") (arr (texts t.labels))
                      (field (codes "milestone") milestone end))))))
            tok (codes "create issue " ++ repr (str t.title))
      number ← run (index resp (codes "number"))
      print (codes "issue #" ++ str_of number ++ codes " created: " ++ t.title)
      return (insert t.id number id_to_num, insert t.id tt created)
  ]

  unfoldable pub file_issues :
      Dict Text Value
      → List Ticket
      → Dict Text Value × TextSet
      → Program (Dict Text Value × TextSet)
  unfolding file_issue
  file_issues ms_num [] state = return state
  file_issues ms_num (t ∷ ts) state = file_issue ms_num t state >>= file_issues ms_num ts

  -- `body if id_ in created else existing[title]["body"]`
  unfoldable pub source_of : TextSet → Ticket → Result Value
  unfolding item
  source_of created t =
      if contains (keys created) t.id then ok (str t.body) else elim (lookup t.title existing) [
        | some issue ↦ index issue (codes "body")
        | none ↦ err key_error
      ]

  -- One round of the second loop over TICKETS
  unfoldable pub rewrite_issue : Dict Text Value × TextSet → Ticket → Program Unit
  unfolding source_of source_text item
  rewrite_issue (id_to_num, created) t = do
    source ← run (source_of created t)
    text ← run (source_text source)
    let new = rewritten digit id_to_num text
    if py_eq (str new) source then return tt else (do
      number ← run (item id_to_num t.id)
      request server (200 ∷ []) (codes "PATCH") (codes "/issues/" ++ str_of number)
          (some (obj (field (codes "body") (str new) end))) tok
          (codes "update issue " ++ repr (str t.title))
      print (codes "issue #" ++ str_of number ++ codes " references rewritten"))

  unfoldable pub rewrite_issues : Dict Text Value × TextSet → List Ticket → Program Unit
  unfolding rewrite_issue
  rewrite_issues state [] = return tt
  rewrite_issues state (t ∷ ts) = rewrite_issue state t >> rewrite_issues state ts

  -- Both loops: `id_to_num` and `created`
  unfoldable pub file_tickets : Dict Text Value → List Ticket → Program (Dict Text Value × TextSet)
  unfolding file_issues rewrite_issues
  file_tickets ms_num tickets = do
    state ← file_issues ms_num tickets ([], [])
    rewrite_issues state tickets
    return state

module _ (digit : ℕ → Bool) (server : List Event → Request → Response) (rounds : ℕ)
    (environ : Text → Option Text) (milestones : List (Text × Text)) (labels : List Label)
    (tickets : List Ticket) where
  -- `check`: it ends the program, or prints two lines.
  unfoldable pub dry_run : Program Unit
  dry_run = do
    problems ← run (check_tickets digit (map (λ l. l.name) labels) (length milestones) tickets)
    if problems == []
        then (do
          print (
              show (length milestones)
              ++ codes " milestones, "
              ++ show (length labels)
              ++ codes " labels, "
              ++ show (length tickets)
              ++ codes " tickets")
          print (codes "dry run ok"))
        else exit (codes "dry run failed:\n  " ++ join (codes "\n  ") problems)

  unfoldable pub file_all : Text → Program Unit
  unfolding numbers names issues file_milestones file_labels
  file_all tok = do
    found ← list_all server rounds (codes "/milestones?state=all") tok
    have ← numbers [] found
    filed ← file_milestones server tok 0 milestones (have, [])
    found ← list_all server rounds (codes "/labels") tok
    have_labels ← names [] found
    file_labels server tok have_labels labels
    found ← list_all server rounds (codes "/issues?state=all") tok
    existing ← issues [] found
    state ← file_tickets digit server tok existing filed.1 tickets
    print (
        codes "done: "
        ++ show (length state.0)
        ++ codes " issues, "
        ++ show (length state.1)
        ++ codes " created this run")

  -- `main`, with the arguments of the command line
  unfoldable pub main : List Text → Program Unit
  unfolding dry_run file_all
  main argv =
      if contains argv (codes "--dry-run")
      then dry_run
      else (do dry_run; tok ← token environ; file_all tok)
