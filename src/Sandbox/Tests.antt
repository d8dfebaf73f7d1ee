-- ===== src/Sandbox/Tests.antt =====
-- The theorems about sandboxed runs at a process that writes twice.
use toolsy.Prelude.{
  ◌≡◌, ◌<◌, ◌≤◌, length, refl, true, false, Option, none, List, [], ◌∷◌, if◌then◌else◌, All, ◌++◌,
  ◌≢◌,
}
use toolsy.Errors.{GoError}
use toolsy.Bytes.{Bytes, contains_bytes}
use toolsy.Sandbox.{
  new_capped_buffer, write_all, write, trim_newline, finish_run, finalize_or_interrupt, RunResult,
  CappedBuffer,
}
use mathlib.Core.List.{reverse}
use toolsy.Sandbox.Workspace.{
  to_slashes, split_slashes, push_segment, clean_segments, starts_up, join_slashes,
  normalize_relative_path,
}
use toolsy.Sandbox.Files.{
  Files, canonicalize_files, AreClean, AreRenamed, AreApart, canonicalize_files-AreApart,
}
use toolsy.Sandbox.Inside.{walk, IsEntry, normalize_relative_path-IsInside}
use toolsy.Sandbox.Output.{concat, finalize_or_interrupt-whole}

abbrev writes : List Bytes
writes = (104 ∷ []) ∷ (105 ∷ 10 ∷ []) ∷ []

abbrev done_run : RunResult
done_run = record { stdout = 104 ∷ 105 ∷ []; stderr = []; exit_code = 0; duration = 5 }

abbrev small : CappedBuffer
small = new_capped_buffer "stdout" 2

abbrev no_error : Option GoError
no_error = none

finalize_or_interrupt-whole_example :
    (no_error ≡ none)
    × (done_run.stdout ≡ (if true then trim_newline (concat writes) else concat writes))
    × (done_run.stderr ≡ concat [])
    × (done_run.exit_code ≡ 0)
    × (true ≡ false → no_error ≡ none)
    × (0 < 8 → length (concat writes) ≤ 8)
    × (0 < 8 → length (concat []) ≤ 8)
unfolding finalize_or_interrupt finish_run write_all write trim_newline
finalize_or_interrupt-whole_example =
    finalize_or_interrupt-whole no_error no_error "stdout" "stderr" 8 8 writes [] 0 5 true true
      {r = done_run} refl

-- a/../b
abbrev roundabout : Bytes
roundabout = 97 ∷ 47 ∷ 46 ∷ 46 ∷ 47 ∷ 98 ∷ []

normalize_relative_path-IsInside_example :
    (segments : List Bytes) × ((98 ∷ []) ≡ join_slashes (reverse segments))
    × (segments ≢ [])
    × All IsEntry segments
    × ((root : List Bytes) → walk root (split_slashes (to_slashes roundabout)) ≡ segments ++ root)
unfolding normalize_relative_path split_slashes clean_segments push_segment starts_up
normalize_relative_path-IsInside_example =
    normalize_relative_path-IsInside roundabout (98 ∷ []) refl

abbrev two_files : Files
two_files = (roundabout, 1 ∷ []) ∷ (97 ∷ [], 2 ∷ []) ∷ []

abbrev clean_files : Files
clean_files = (98 ∷ [], 1 ∷ []) ∷ (97 ∷ [], 2 ∷ []) ∷ []

abbrev reserved_names : List Bytes
reserved_names = (99 ∷ []) ∷ []

canonicalize_files-AreApart_example :
    (paths : List Bytes) × AreClean reserved_names paths
    × AreRenamed two_files clean_files
    × AreApart paths [] clean_files
unfolding canonicalize_files normalize_relative_path split_slashes clean_segments push_segment
    starts_up contains_bytes
canonicalize_files-AreApart_example =
    canonicalize_files-AreApart two_files clean_files reserved_names refl
