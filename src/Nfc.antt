-- ===== src/Nfc.antt =====
-- physical_system/nfc_reader.py: the producer of NFC reads.
-- `read_passive_target` belongs to the driver: what it returns or raises is an argument.
pub mod Hex
pub mod Reader
pub mod Reads
pub mod Part
use Prim.Native.Nat.{◌/◌, ◌%◌}
use circular_manu_system.Base.{
  Bool, List, Option, [], arith, false, if◌then◌else◌, ltb, none, some, true, ℕ, ◌+◌, ◌-◌, ◌<◌, ◌∷◌,
  ◌⊎◌,
}
use circular_manu_system.Base.Text.{Text}
use circular_manu_system.Events.{NfcEvent, Queue, put_nowait}
use circular_manu_system.Station.{station_id}

-- What the driver's `read_passive_target` does: it returns the bytes of a tag, or `None`, or raises.
pub data Reading : Type 0 where
  tag : List ℕ → Reading
  no_tag raised : Reading

-- A digit of `f'{b:02x}'`
unfoldable pub hex_digit : ℕ → ℕ
hex_digit d = if ltb d 10 then b'0' + d else b'a' + (d - 10)

pub hex_digit-no_capital : (d : ℕ) → (hex_digit d < b'A') ⊎ (b'Z' < hex_digit d)
unfolding hex_digit
hex_digit-no_capital d = ground arith

-- `''.join([f'{b:02x}' for b in uid])`, for bytes
unfoldable pub hex : List ℕ → Text
hex [] = []
hex (b ∷ bs) = hex_digit (b / 16) ∷ hex_digit (b % 16) ∷ hex bs

-- `_blocking_read_tag`: an empty uid is no tag, and what the driver raises is caught.
unfoldable pub blocking_read_tag : Bool → Reading → Option Text
blocking_read_tag true reading = none
blocking_read_tag false (tag []) = none
blocking_read_tag false (tag (b ∷ bs)) = some (hex (b ∷ bs))
blocking_read_tag false no_tag = none
blocking_read_tag false raised = none

-- `if part_id:` is false of `None` and of the empty string.
unfoldable pub put_read : ℕ → ℕ → ℕ → Option Text → Queue NfcEvent → Queue NfcEvent
put_read reader_num station_id t none q = q
put_read reader_num station_id t (some []) q = q
put_read reader_num station_id t (some (c ∷ cs)) q =
    put_nowait
      (record { timestamp = t; station_id = station_id; part_id = c ∷ cs; reader_num = reader_num })
      q

-- The body of the loop of `run`.
unfoldable pub scan : ℕ → ℕ → Bool → Reading → ℕ → Queue NfcEvent → Queue NfcEvent
unfolding put_read
scan reader_num station_id simulation reading t q =
    put_read reader_num station_id t (blocking_read_tag simulation reading) q
