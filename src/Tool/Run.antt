-- ===== src/Tool/Run.antt =====
-- A run of a script against a consumer: what `Execute` does with the `yield` that it is given.
use toolsy.Prelude.{Option, String}
use toolsy.Errors.{GoError}
use toolsy.Chunk.{Chunk}
use toolsy.Tool.{Script, done, panic, emit, spawn}

pub data Exit : Type 0 where
  returned : Option GoError → Exit
  panicked : String → Exit

module _ {S : Type 0} (deliver : S → Chunk → S × Option GoError) (start : S → Script → S) where
  unfoldable pub run_script : Script → S → S × Exit
  run_script (done e) s = (s, returned e)
  run_script (panic p) s = (s, panicked p)
  run_script (emit c k) s = let (s', answer) = deliver s c in run_script (k answer) s'
  run_script (spawn b k) s = run_script k (start s b)

  -- What every delivery and every start of background work keeps holds after a run.
  pub run_script-keeps :
      (P : S → Type 0)
      → ((s : S) (c : Chunk) → P s → P (deliver s c).0)
      → ((s : S) (b : Script) → P s → P (start s b))
      → (t : Script) (s : S) → P s
      → P (run_script t s).0
  unfolding run_script
  run_script-keeps P d g (done e) s h = h
  run_script-keeps P d g (panic p) s h = h
  run_script-keeps P d g (emit c k) s h =
      let (s', answer) = deliver s c in run_script-keeps P d g (k answer) s' (d s c h)
  run_script-keeps P d g (spawn b k) s h = run_script-keeps P d g k (start s b) (g s b h)
