-- ===== src/Tests/Locks.antt =====
-- The locks, the answers of GitHub and the clock of the runs of scripts/flake_update.py.
use nixos_homeserver.Base.{
  ℕ, if◌then◌else◌, ◌==◌, Text, codes, ℤ, pos, Exception, Result, ok, err, type_error, nat_eq,
  list_eq, int_eq, String,
}
use nixos_homeserver.Base.Value.{Value, num, str, arr, obj, nil, cons, end, field}
use nixos_homeserver.Flake.Github.{activity}

abbrev pub text : String → Value
text s = str (codes s)

abbrev pub original : Value
original = obj (
    field (codes "type") (text "github") (
      field (codes "owner") (text "nix-community")
        (field (codes "repo") (text "impermanence") (field (codes "ref") (text "main") end))))

abbrev pub locked_at : String → ℕ → Value
locked_at rev date = obj (
    field (codes "type") (text "github") (
      field (codes "owner") (text "nix-community") (
        field (codes "repo") (text "impermanence") (
          field (codes "rev") (text rev) (
            field (codes "narHash") (text "sha256-AAAAAAAAAAAAAAAAAAAAAAAAAAAAAAAAAAAAAAAAAAA=")
              (field (codes "lastModified") (num (pos date)) end))))))

abbrev pub lock_at : Value → Value
lock_at locked = obj (
    field (codes "nodes")
      (obj (
        field (codes "impermanence")
          (obj (field (codes "original") original (field (codes "locked") locked end)))
          (field (codes "root")
            (obj (
              field (codes "inputs") (obj (field (codes "impermanence") (text "impermanence") end))
                end))
            end)))
      (field (codes "version") (num (pos 7)) end))

abbrev pub old_rev : String
old_rev = "1111111111111111111111111111111111111111"

abbrev pub new_rev : String
new_rev = "2222222222222222222222222222222222222222"

abbrev pub old_lock : Value
old_lock = lock_at (locked_at old_rev 1700000000)

abbrev pub new_lock : Value
new_lock = lock_at (locked_at new_rev 1700500000)

-- Every comparison says `ahead`. The log has a push after the cutoff and one before it.
abbrev pub push : ℕ → String → Value
push time sha = obj (
    field (codes "timestamp") (num (pos time))
      (field (codes "activity_type") (text "push") (field (codes "after") (text sha) end)))

abbrev pub pushes : Value
pushes =
    arr (cons (push 900 "3333333333333333333333333333333333333333") (cons (push 100 new_rev) nil))

abbrev pub log_path : Text
log_path = activity (text "nix-community") (text "impermanence") (text "main")

abbrev pub github : Text → Result Value
github path =
    if path == log_path then ok pushes else ok (obj (field (codes "status") (text "ahead") end))

abbrev pub pushed_at : Value → Result ℤ
pushed_at (num n) = ok n
pushed_at _ = err type_error

abbrev pub cutoff : Text → ℤ
cutoff name = pos 500

abbrev pub describe : Exception → Text
describe e = codes "error"

abbrev pub old_locked : Value
old_locked = locked_at old_rev 1700000000
