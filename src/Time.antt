-- ===== src/Time.antt =====
-- Instants and their conversions: the part of `chrono` that the program relies on, and
-- src/utils/time.rs, which fixes the time zone in which they are shown.
use Prim.Native.String.{String}
use mathlib.Core.Option
use dtchat.Prelude.{ℕ, ◌*◌, ℤ, compare, Ordering, Option}

-- `DateTime<FixedOffset>`: an instant and the offset of the clock that shows it, in seconds.
pub record Zoned (T : Type 0) : Type 0 where
  pub utc : T
  pub offset : ℕ

-- `DateTime<Utc>` is `T`. chrono orders instants in time: `rank` is the position in that order.
-- `millis` is `timestamp_millis`, `of_millis` is `Utc.timestamp_millis_opt(..).single()`, and
-- `hms` is the text of `format("%H:%M:%S")`.
pub record Instant (T : Type 0) : Type 0 where
  pub rank : T → ℕ
  pub millis : T → ℤ
  pub of_millis : ℤ → Option T
  pub hms : Zoned T → String

abbrev pub jst_offset : ℕ
jst_offset = 9 * 3600

abbrev pub to_jst : {T : Type 0} → T → Zoned T
to_jst dt = record { utc = dt; offset = jst_offset }

unfoldable pub jst_from_millis : {T : Type 0} ⦃i : Instant T⦄ → ℤ → Option (Zoned T)
jst_from_millis ⦃i⦄ ms =
    Option.map (λ dt. record { utc = dt; offset = jst_offset }) (i.of_millis ms)

-- `a.cmp(&b)` on instants.
abbrev pub cmp : {T : Type 0} ⦃i : Instant T⦄ → T → T → Ordering
cmp ⦃i⦄ a b = compare (i.rank a) (i.rank b)

-- `Ordering::then_with`, at a second ordering that has no effects.
abbrev pub then_with : Ordering → Ordering → Ordering
then_with Ordering.eq o = o
then_with Ordering.lt o = Ordering.lt
then_with Ordering.gt o = Ordering.gt
