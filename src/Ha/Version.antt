-- ===== src/Ha/Version.antt =====
-- Replicated versions { term, seq }: `cleanVersion` and `compareVersion` of shared/ha-voter.mjs,
-- which panel/lib/ha.mjs repeats as `cleanV` and `cmpV`.
use forthway_command_center.Base.{
  ℕ, ◌<◌, ◌≡◌, ◌⊎◌, ◌↔◌, Bool, true, false, arith, ltb, ◌==◌, if◌then◌else◌, Value, whole,
  to_number, floor_or_zero,
}

-- As it arrives: the fields of a missing or broken version are `undefined`.
pub record RawVersion : Type 0 where
  pub term : Value
  pub seq : Value

pub record Version : Type 0 where
  pub term : ℕ
  pub seq : ℕ

abbrev pub no_version : RawVersion
no_version = record { term = Value.undefined; seq = Value.undefined }

abbrev pub initial_version : Version
initial_version = record { term = 0; seq = 0 }

unfoldable pub clean_version : RawVersion → Version
clean_version v = record {
  term = floor_or_zero (to_number v.term);
  seq = floor_or_zero (to_number v.seq);
}

-- `compareVersion(a, b) < 0` on clean versions; `compareVersion(a, b) > 0` is `older b a`.
unfoldable pub older : Version → Version → Bool
older a b = if a.term == b.term then ltb a.seq b.seq else ltb a.term b.term

-- A version as JSON carries it.
unfoldable pub raw_version : Version → RawVersion
raw_version v = record { term = whole v.term; seq = whole v.seq }

pub clean-raw_version : (v : Version) → clean_version (raw_version v) ≡ v
unfolding clean_version raw_version
clean-raw_version v = ground arith

abbrev pub Precedes : Version → Version → Type 0
Precedes a b = (a.term < b.term) ⊎ ((a.term ≡ b.term) × (a.seq < b.seq))

-- `older` decides the lexicographic order of versions: term first, then sequence number.
pub older_iff : (a b : Version) → (older a b ≡ true) ↔ Precedes a b
unfolding older
older_iff a b = (λ h. ground arith, λ h. ground arith)

pub older_irrefl : (a : Version) → older a a ≡ false
unfolding older
older_irrefl a = ground arith

-- What is not older than `b` stays so for anything that `b` is not older than.
pub older_trans : (a b c : Version) → older a b ≡ false → older b c ≡ false → older a c ≡ false
unfolding older
older_trans a b c h k = ground arith

pub older-total : (a b : Version) → older a b ≡ false → older b a ≡ false → a ≡ b
unfolding older
older-total a b h k = ground arith
