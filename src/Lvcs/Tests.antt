-- ===== src/Lvcs/Tests.antt =====
-- Runs of os/kernel/lvcs.c, and its theorems at concrete calls.
use lardos.Lvcs.History.{code, new_id, handed, call_commit}
use lardos.Base.{ℕ, ◌≡◌, refl, none, some, List, [], ◌∷◌, arith, All}
use lardos.Lvcs.History.{
  Call, model_run, call_add, Proper, model_step, run, checkout_stable, call_checkout, calls_refine,
  code,
}
use lardos.Lvcs.Refine.{SameOutcome}
use lardos.Lvcs.Valid.{IsValid}
use lardos.Lvcs.Model.{
  model_add, model_add_named, empty, model_commit, model_checkout, model_checkout_found, put,
  lookup, newest,
}
use lardos.Lvcs.Committed.{checkout_committed}
use lardos.Lvcs.{
  same, init, State, checkout, add, pos, checkpoint, add_named, commit, copy_name, ok, find_file,
  error, store_blob, negsuc, put_file,
}

abbrev notes : List ℕ
notes = b'n' ∷ b'o' ∷ b't' ∷ b'e' ∷ b's' ∷ []

abbrev first_text : List ℕ
first_text = 1 ∷ 2 ∷ 3 ∷ []

abbrev calls : List Call
calls =
    call_add (some notes) (some first_text) 3
    ∷ call_commit none
    ∷ call_add (some notes) (some (9 ∷ [])) 1
    ∷ call_commit (some notes)
    ∷ call_checkout 1 (some notes) (some 10)
    ∷ call_checkout 2 (some notes) (some 0)
    ∷ []

abbrev calls_proper : All Proper calls
calls_proper = (omega arith, (tt, (omega arith, (tt, (tt, (tt, tt))))))

model_answers :
    (model_run empty calls).0
    ≡ code (pos 0)
      ∷ new_id (ok 1)
      ∷ code (pos 0)
      ∷ new_id (ok 2)
      ∷ handed (ok first_text)
      ∷ handed (error (negsuc 2))
      ∷ []
unfolding model_run model_step model_add model_add_named model_commit model_checkout
    model_checkout_found put lookup newest same
model_answers = refl

calls_refine_example : SameOutcome (run init calls) (model_run empty calls)
calls_refine_example = calls_refine calls calls_proper

-- the state after the first commit
abbrev committed_once : State
committed_once = record {
  store = first_text;
  stage = [];
  commits =
      record {
        id = 1;
        parent = 0;
        hash = 7;
        message = checkpoint;
        files = record { name = notes; offset = 0; size = 3; hash = 5 } ∷ [];
      }
      ∷ [];
  next_id = 2;
}

committed_once-IsValid : IsValid committed_once
committed_once-IsValid = record {
  fits = omega arith;
  staged = tt;
  stage_fits = omega arith;
  committed = ((omega arith, tt), tt);
  commits_fit = omega arith;
  numbered = (refl, tt);
  next = refl;
}

checkout_stable_example :
    checkout (run committed_once calls).1 1 (some notes) (some 5)
    ≡ checkout committed_once 1 (some notes) (some 5)
checkout_stable_example =
    checkout_stable committed_once calls 1 (some notes) (some 5) committed_once-IsValid calls_proper
      (omega arith)

first_commit : (add committed_once (some notes) (some (9 ∷ [])) 1).0 ≡ pos 0
unfolding add add_named copy_name find_file store_blob
first_commit = refl

second_id : (commit (add committed_once (some notes) (some (9 ∷ [])) 1).1 none).0 ≡ ok 2
unfolding add add_named copy_name find_file store_blob put_file commit
second_id = refl

checkout_committed_example :
    checkout
      (commit (add committed_once (some notes) (some (9 ∷ [])) 1).1 none).1
      2
      (some notes)
      (some 4)
    ≡ ok (9 ∷ [])
checkout_committed_example =
    checkout_committed committed_once b'n' (b'o' ∷ b't' ∷ b'e' ∷ b's' ∷ []) (9 ∷ []) 1 2 4 none
      committed_once-IsValid (omega arith) first_commit second_id (omega arith)
