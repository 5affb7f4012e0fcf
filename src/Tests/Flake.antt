-- ===== src/Tests/Flake.antt =====
-- Runs of the model of scripts/flake_update.py, and its theorems at concrete inputs.
use nixos_homeserver.Base.{
  true, false, some, List, [], ◌≡◌, ◌⊎◌, refl, Text, codes, ℤ, pos, Result, ok, nat_eq, list_eq,
  int_eq, show, show_int, starts_with, join, for_each,
}
use nixos_homeserver.Base.Lists.{All, select, same_set, subset, union, difference}
use nixos_homeserver.Base.Dict.{keys, lookup}
use nixos_homeserver.Base.Sort.{sorted, leb_text, to_set}
use nixos_homeserver.Base.Value.{
  Value, null, bool, num, obj, end, field, py_eq, repr, str_of, truthy, get, index, iterate,
  dict_items,
}
use nixos_homeserver.Base.Value.Access.{find, at, members, is_in, first_ten}
use nixos_homeserver.Flake.Lock.{
  is_rev, is_nar_hash, matches, is_int, top_level, node_field, complain_unless, locked_field,
  locked_move, locked_problems, node_problems, lock_problems, direct_inputs,
}
use nixos_homeserver.Flake.Lock.Frozen.{LockOk, nodes_of, lock_problems-LockOk}
use nixos_homeserver.Flake.Github.{
  short, on_line, repository, comparison, compare_status, branch_of, on_branch, forced_days,
  eligible, newest, activity, cooled_head, Head, Commit, is_none, left_alone, judge_head,
  cooled_commit,
}
use nixos_homeserver.Flake.Github.Cooled.{Passed, Newest, cooled_head-Newest}
use nixos_homeserver.Flake.Github.Moves.{MovesTo, cooled_commit-MovesTo}
use nixos_homeserver.Flake.Check.{
  rev_moved, moved_input, caught, Verdict, written, not_cooled, why_not, check_moved, conclude,
  moved_inputs, after_lock, cmd_check,
}
use nixos_homeserver.Flake.Check.Vetted.{Vetted}
use nixos_homeserver.Flake.Check.Accepts.{cmd_check-Vetted}
use nixos_homeserver.Tests.Locks.{
  text, original, new_rev, old_lock, new_lock, log_path, github, pushed_at, cutoff, describe,
  old_locked,
}

abbrev date_cell : Value → Result Text
date_cell v = ok (codes "2023-11-20 (9 days)")

-- The model with everything open that it runs through
check : Value → Value → Text → Result Verdict
unfolding cmd_check after_lock conclude moved_inputs moved_input rev_moved check_moved why_not
    not_cooled caught lock_problems node_problems node_field locked_problems locked_field
    locked_move complain_unless matches is_int is_rev is_nar_hash top_level direct_inputs branch_of
    on_branch cooled_head newest eligible forced_days activity repository comparison compare_status
    on_line is_none short first_ten members is_in find get index iterate dict_items truthy py_eq
    repr str_of sorted leb_text to_set keys lookup for_each same_set subset union difference select
    starts_with join show show_int codes nat_eq list_eq int_eq
check = cmd_check github pushed_at cutoff (pos 7) describe date_cell

abbrev text_of : Result Verdict → Text
text_of (ok (written t)) = t
text_of _ = []

same_run : lock_problems old_lock old_lock ≡ ok []
unfolding check
same_run = refl

moved_run : lock_problems old_lock new_lock ≡ ok []
unfolding check
moved_run = refl

head_run :
    cooled_head github pushed_at
      (pos 500)
      (text "nix-community")
      (text "impermanence")
      (text "main")
    ≡ ok (record { sha = text new_rev; at = some (pos 100); forced = [] })
unfolding check
head_run = refl

lock_problems-LockOk_example : LockOk old_lock new_lock
lock_problems-LockOk_example = lock_problems-LockOk old_lock new_lock (unfold check in refl)

abbrev written_text : Text
written_text = text_of (check old_lock new_lock (codes "report"))

-- The pull request is written, and names the input and its two commits.
written_run : check old_lock new_lock (codes "report") ≡ ok (written written_text)
unfolding check
written_run = refl

cmd_check-Vetted_example :
    LockOk old_lock new_lock
    × ((name : Text) (o n : Value)
        → find (nodes_of old_lock) name ≡ some o
        → find (nodes_of new_lock) name ≡ some n
        → truthy (at o (codes "locked")) ≡ true
        → py_eq
            (at (at o (codes "locked")) (codes "rev"))
            (at (at n (codes "locked")) (codes "rev"))
          ≡ false
        → Vetted github pushed_at cutoff
            (pos 7)
            describe
            name
            (at o (codes "original"))
            (at o (codes "locked"))
            (at n (codes "locked")))
cmd_check-Vetted_example =
    cmd_check-Vetted github pushed_at cutoff (pos 7) describe date_cell old_lock new_lock
      (codes "report") written_text (unfold check in refl)

abbrev head : Head
head = record { sha = text new_rev; at = some (pos 100); forced = [] }

cooled_head-Newest_example :
    (reply : Value) × (log : List Value) × (github log_path ≡ ok reply)
    × (iterate reply ≡ ok log)
    × ((All (Passed pushed_at (pos 500)) log × (head.sha ≡ null))
        ⊎ ((time : ℤ) × Newest pushed_at (pos 500) log head.sha time))
cooled_head-Newest_example =
    cooled_head-Newest pushed_at (pos 500) github (text "nix-community") (text "impermanence")
      (text "main") {head = head} (unfold check in refl)

abbrev commit : Commit
commit = record { sha = text new_rev; at = some (pos 100); notes = [] }

cooled_commit-MovesTo_example : MovesTo github pushed_at (pos 500) original old_locked commit.sha
cooled_commit-MovesTo_example =
    cooled_commit-MovesTo github pushed_at (pos 500) original old_locked {commit = commit}
      (unfold check cooled_commit judge_head left_alone in refl) (unfold check in refl)

abbrev flagged : Value → Value
flagged flag = obj (
    field (codes "nodes") (obj (field (codes "src") (obj (field (codes "flake") flag end)) end))
      end)

-- Python's `==` takes 0 for False, so this change of another field than rev, narHash and lastModified is
-- no problem.
zero_run : lock_problems (flagged (bool false)) (flagged (num (pos 0))) ≡ ok []
unfolding check
zero_run = refl
