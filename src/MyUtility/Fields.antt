-- ===== src/MyUtility/Fields.antt =====
-- What an identifier is made of.
use Prim.Native.Nat.{bit_or}
use cxx.Common.{ℕ, ◌+◌, ◌-◌, ◌*◌, ◌/◌, ◌%◌, ◌^◌, ◌≤◌, ◌<◌, ◌≡◌, ◌∙◌, ap, arith}
use cxx.MyUtility.{epoch, uint64_mod, unique_id}
use cxx.MyUtility.Bits.{bit_or_shifted}

-- The milliseconds that the 42 bits of the timestamp can tell.
abbrev pub InTime : ℕ → Type 0
InTime timestamp = (epoch ≤ timestamp) × (timestamp < epoch + 2 ^ 42)

-- The numbers that fit their fields.
pub record Fits (timestamp data_center machine sequence : ℕ) : Type 0 where
  pub in_time : InTime timestamp
  pub data_center_fits : data_center ≤ 31
  pub machine_fits : machine ≤ 31
  pub sequence_fits : sequence < 4096

module _ (t d m s : ℕ) (f : Fits t d m s) where
  high : ((t + uint64_mod - epoch) % uint64_mod) * 2 ^ 22 % uint64_mod ≡ (t - epoch) * 2 ^ 22
  high = omega (arith, f.in_time)

  with_center : bit_or ((t - epoch) * 2 ^ 22) (d * 2 ^ 17) ≡ ((t - epoch) * 32 + d) * 2 ^ 17
  with_center =
      bit_or_shifted 22 (t - epoch) (d * 2 ^ 17) (omega (arith, f.data_center_fits)) ∙ omega arith

  with_machine :
      bit_or (((t - epoch) * 32 + d) * 2 ^ 17) (m * 2 ^ 12)
      ≡ (((t - epoch) * 32 + d) * 32 + m) * 2 ^ 12
  with_machine =
      bit_or_shifted 17 ((t - epoch) * 32 + d) (m * 2 ^ 12) (omega (arith, f.machine_fits))
      ∙ omega arith

  pub unique_id_sum : unique_id t d m s ≡ (t - epoch) * 2 ^ 22 + d * 2 ^ 17 + m * 2 ^ 12 + s
  unfolding unique_id
  unique_id_sum =
      ap (λ n. bit_or (bit_or (bit_or n (d * 2 ^ 17)) (m * 2 ^ 12)) s) high
      ∙ ap (λ n. bit_or (bit_or n (m * 2 ^ 12)) s) with_center
      ∙ ap (λ n. bit_or n s) with_machine
      ∙ bit_or_shifted 12 (((t - epoch) * 32 + d) * 32 + m) s f.sequence_fits
      ∙ omega arith

  -- An identifier whose parts fit their fields gives them back: the timestamp of the 42 bits from
  -- 2021 on, the data center and the machine of five bits each, and the sequence number of twelve.
  pub unique_id_fields :
      (unique_id t d m s / 2 ^ 22 + epoch ≡ t)
      × (unique_id t d m s / 2 ^ 17 % 32 ≡ d)
      × (unique_id t d m s / 2 ^ 12 % 32 ≡ m)
      × (unique_id t d m s % 4096 ≡ s)
      × (unique_id t d m s < uint64_mod)
  unique_id_fields =
      ground (arith, unique_id_sum, f.in_time, f.data_center_fits, f.machine_fits, f.sequence_fits)
