-- ===== src/Application/Budgets.antt =====
-- The budgets of src/application/read_budget.rs.
pub mod Debits
use changekernel.Base.{
  ℕ, ◌-◌, ◌*◌, ◌||◌, Bool, leb, ltb, Result, ok, err, reject_if, ◌>>=◌, ◌>>◌, if◌then◌else◌,
}
use changekernel.Base.Order.{◌==◌, nat_eq}

-- `ReadRefusal` of src/application/read.rs. A budget gives one of them only.
pub data ReadRefusal : Type 0 where
  denied invalid changed unavailable limit unsupported : ReadRefusal

pub record ReadWorkLimits : Type 0 where
  pub source_bytes : ℕ
  pub io_bytes : ℕ
  pub allocation_bytes : ℕ
  pub work_units : ℕ

-- `ReadWorkLimits::default`
abbrev pub default_limits : ReadWorkLimits
default_limits = record {
  source_bytes = 64 * 1024 * 1024;
  io_bytes = 1024 * 1024 * 1024;
  allocation_bytes = 2 * 1024 * 1024 * 1024;
  work_units = 2 * 1024 * 1024 * 1024;
}

-- `n == 0 || n > max`
abbrev pub out_of_range : ℕ → ℕ → Bool
out_of_range n max = n == 0 || ltb max n

-- `ReadWorkLimits::validate`
unfoldable pub validate : ReadWorkLimits → Result ReadRefusal (Unit {0})
validate l =
    reject_if
      (out_of_range l.source_bytes default_limits.source_bytes
        || (out_of_range l.io_bytes default_limits.io_bytes
            || (out_of_range l.allocation_bytes default_limits.allocation_bytes
                || out_of_range l.work_units default_limits.work_units)))
      ReadRefusal.limit

pub record ReadBudget : Type 0 where
  pub remaining : ReadWorkLimits
  pub callbacks : ℕ

-- `ReadBudget::try_new`
unfoldable pub try_new : ReadWorkLimits → Result ReadRefusal ReadBudget
try_new limits = do validate limits; ok (record { remaining = limits; callbacks = 16 })

-- `ReadBudget::debit`: `checked_sub`
unfoldable pub debit : ℕ → ℕ → Result ReadRefusal ℕ
debit counter amount = if leb amount counter then ok (counter - amount) else err ReadRefusal.limit

-- A reservation: one of the methods `source`, `io`, `allocate`, `work` and `callback`.
pub data Reservation : Type 0 where
  source io allocate work : ℕ → Reservation
  callback : Reservation

unfoldable pub reserve : ReadBudget → Reservation → Result ReadRefusal ReadBudget
reserve b (Reservation.source n) = do
  left ← debit b.remaining.source_bytes n
  ok (record b { remaining = record b.remaining { source_bytes = left } })
reserve b (Reservation.io n) = do
  left ← debit b.remaining.io_bytes n
  ok (record b { remaining = record b.remaining { io_bytes = left } })
reserve b (Reservation.allocate n) = do
  left ← debit b.remaining.allocation_bytes n
  ok (record b { remaining = record b.remaining { allocation_bytes = left } })
reserve b (Reservation.work n) = do
  left ← debit b.remaining.work_units n
  ok (record b { remaining = record b.remaining { work_units = left } })
reserve b Reservation.callback = do left ← debit b.callbacks 1; ok (record b { callbacks = left })
