-- ===== src/Verify/Admission.antt =====
-- `verify` of scripts/verify_submission.py: one verification at a time, and the receipt of a refusal.
pub mod Slot
pub mod Lock
use leansphincs.Base.{
  ℕ, String, Bool, true, false, Option, if◌then◌else◌, Result, ok, err, worker_busy, value_error,
  runtime_error, os_error, subprocess_error, keyboard_interrupt, recursion_error, type_error,
  index_error, key_error, attribute_error, ◌>>◌,
}
use leansphincs.Worker.{worker_slot, close}
use leansphincs.Verify.Report.{Report}
use leansphincs.Verify.World.{World}
use leansphincs.Verify.Outcomes.{verify_admitted}

-- The receipt of a refused run. Left out are the schema, `ranked`, the claim, the meter, the times and
-- the empty logs.
pub record BusyReport : Type 0 where
  pub mathematical_verification : Bool
  pub resource_certification : Bool
  pub side_channel_review : Bool
  pub deployment_eligible : Bool
  pub profile : String
  pub status : String
  pub stage : String
  pub retryable : Bool
  pub error : String

abbrev pub busy_report : Bool → String → BusyReport
busy_report insecure error = record {
  mathematical_verification = false;
  resource_certification = false;
  side_channel_review = false;
  deployment_eligible = false;
  profile = if insecure then "insecure-local" else "leansphincs-linux-v1";
  status = "worker_busy";
  stage = "admission";
  retryable = true;
  error = error;
}

pub data Answer : Type 0 where
  ran : Report → Answer
  busy : BusyReport → Answer

-- What `verify` does beside the slot and the run: `result_root.mkdir`, the open of the lock file with
-- whether it is regular, and for a refusal the new directory with its mode, and its receipt.
pub record Desk : Type 0 where
  pub mkdir : Result (Unit {0})
  pub opened : Result Bool
  pub busy_directory : Result (Unit {0})
  pub busy_receipt : Result (Unit {0})

module _ (d : Desk) (insecure : Bool) where
  -- `except WorkerBusy as error: …`
  unfoldable pub except_busy : Result Answer → Result Answer
  except_busy (err (worker_busy m)) = do
    d.busy_directory
    d.busy_receipt
    ok (busy (busy_report insecure m))
  except_busy (ok answer) = ok answer
  except_busy (err (value_error m)) = err (value_error m)
  except_busy (err (runtime_error m)) = err (runtime_error m)
  except_busy (err (os_error m)) = err (os_error m)
  except_busy (err (subprocess_error m)) = err (subprocess_error m)
  except_busy (err (keyboard_interrupt m)) = err (keyboard_interrupt m)
  except_busy (err (recursion_error m)) = err (recursion_error m)
  except_busy (err (type_error m)) = err (type_error m)
  except_busy (err (key_error m)) = err (key_error m)
  except_busy (err (index_error m)) = err (index_error m)
  except_busy (err (attribute_error m)) = err (attribute_error m)

  abbrev pub ran_of : Result Report → Result Answer
  ran_of (ok r) = ok (ran r)
  ran_of (err e) = err e

  -- The `with` block for the process `p`, with the lock before and after it. The slot closes its
  -- descriptor in every case.
  abbrev pub in_slot : World → ℕ → Option ℕ → Result (Option ℕ) → Result Answer × Option ℕ
  in_slot w p holder (err e) = (err e, close holder p)
  in_slot w p holder (ok taken) = (ran_of (verify_admitted w insecure), close taken p)

  abbrev pub caught_busy : Result Answer × Option ℕ → Result Answer × Option ℕ
  caught_busy (answer, holder) = (except_busy answer, holder)

  abbrev pub behind_mkdir : World → ℕ → Option ℕ → Result (Unit {0}) → Result Answer × Option ℕ
  behind_mkdir w p holder (err e) = (err e, holder)
  behind_mkdir w p holder (ok u) = caught_busy (in_slot w p holder (worker_slot d.opened holder p))

  unfoldable pub verify : World → ℕ → Option ℕ → Result Answer × Option ℕ
  verify w p holder = behind_mkdir w p holder d.mkdir
