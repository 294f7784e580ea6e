-- ===== src/Market/Spread.antt =====
-- programs/token-mill/src/state/market.rs: a quote on higher prices, for a larger amount or rounded up, is
-- at least the quote on lower ones.
use sol_token_mill.Word
use sol_token_mill.Math
use native.Mathlib.Nat.{mul-le-mul_right}
use sol_token_mill.Word.U128
use sol_token_mill.Base.{
  Bool-cases, List, [], arith, drop, false, inl, inr, length, min, refl, suc, sym, true, zero, ℕ,
  ◌+◌, ◌-◌, ◌==◌, ◌∙◌, ◌∷◌, ◌≡◌, ◌≤◌,
}
use sol_token_mill.Constant.{scale}
use sol_token_mill.Errors.{ok, ok-injective, on_ok}
use sol_token_mill.Market.{Market, index}
use sol_token_mill.Market.Bounds.{normalize_base_sound}
use sol_token_mill.Market.Monotone.{
  RoundsBelow, add_sound, interval_quote_mono, mul_sound, quote_loop-grows, quotient_mono,
  sub_sound,
}
use sol_token_mill.Market.Prices.{BidsBelowAsks, CurvesValid}
use sol_token_mill.Market.Quote.{
  curve_of, get_quote_amount_with_parameters, interval_quote, quote_loop,
}
use sol_token_mill.Market.Quoted.{quoted}
use sol_token_mill.Math.{Rounding}
use sol_token_mill.Math.Bounds.{div_sound}
use sol_token_mill.Ruint.{Laws, Ruint}
use sol_token_mill.SwapTypes.{SwapAmountType, exact_input, exact_output}
use sol_token_mill.Word.{power_of_ten}

step_mono :
    (left left' width used : ℕ) → left ≤ left' → min left (width - used) ≤ min left' (width - used)
step_mono left left' width used le = ground arith

rest_mono : (left left' room : ℕ) → left ≤ left' → left - min left room ≤ left' - min left' room
rest_mono left left' room le = ground arith

pub finished :
    (R : Ruint) (r : Rounding) (width price_0 : ℕ) (prices : List ℕ) (used left quote : ℕ)
    {out : ℕ × ℕ}
    → left == 0 ≡ true
    → quote_loop R r width price_0 prices used left quote ≡ ok out
    → out.1 ≡ quote
unfolding quote_loop
finished R r width price_0 [] used left quote done h = ground arith
finished R r width price_0 (p ∷ ps) used left quote done h = ground arith

still_more : (left left' : ℕ) → left ≤ left' → left == 0 ≡ false → left' == 0 ≡ false
still_more left left' le more = ground arith

quote_loop_mono :
    {R : Ruint} (laws : Laws R) (r r' : Rounding) (width price_0 price_0' : ℕ)
    (prices prices' : List ℕ) (used left left' quote quote' : ℕ) {out out' : ℕ × ℕ}
    → RoundsBelow r r'
    → length prices ≡ length prices'
    → BidsBelowAsks prices prices'
    → price_0 ≤ price_0'
    → left ≤ left'
    → quote ≤ quote'
    → used ≤ width
    → quote_loop R r width price_0 prices used left quote ≡ ok out
    → quote_loop R r' width price_0' prices' used left' quote' ≡ ok out'
    → out.1 ≤ out'.1
unfolding quote_loop
quote_loop_mono laws r r' width p0 p0' [] [] used left left' quote quote' b len o le0 le leq u h
      h' =
    ground arith
quote_loop_mono laws r r' width p0 p0' [] (p1' ∷ ps') used left left' quote quote' b len o le0 le
      leq u h h' =
    absurd (omega arith)
quote_loop_mono laws r r' width p0 p0' (p1 ∷ ps) [] used left left' quote quote' b len o le0 le leq
      u h h' =
    absurd (omega arith)
quote_loop_mono {R} laws r r' width p0 p0' (p1 ∷ ps) (p1' ∷ ps') used left left' quote quote' b len
      o le0 le leq u h h' =
    elim (Bool-cases (left == 0)) [
      | inl done ↦ omega (
        arith,
        finished R r width p0 (p1 ∷ ps) used left quote done h,
        quote_loop-grows R r' width p0' (p1' ∷ ps') used left' quote' h',
        leq,
      )
      | inr more ↦
          let more' : left' == 0 ≡ false = still_more left left' le more in
          on_ok (Word.sub width used) (rw more at h) λ room er h1.
            on_ok (interval_quote R p0 p1 width used (min left room) r) h1 λ dq eq h2.
              on_ok (Word.sub left (min left room)) h2 λ l el h3.
                on_ok (U128.add quote dq) h3 λ q es h4.
                  on_ok (Word.sub width used) (rw more' at h') λ room' er' h1'.
                    on_ok (interval_quote R p0' p1' width used (min left' room') r') h1'
                      λ dq' eq' h2'. on_ok (Word.sub left' (min left' room')) h2' λ l' el' h3'.
                        on_ok (U128.add quote' dq') h3' λ q' es' h4'.
                          let (e_room, _) = sub_sound width used er in
                          let (e_room', _) = sub_sound width used er' in
                          let same : room' ≡ room = e_room' ∙ sym e_room in
                          let smaller : min left room ≤ min left' room' = ground arith in
                          let fits : min left' room' + used ≤ width = ground arith in
                          let (el0, _) = sub_sound left (min left room) el in
                          let (el1, _) = sub_sound left' (min left' room') el' in
                          let fewer : l ≤ l' = ground arith in
                          let dearer =
                            interval_quote_mono laws p0 p1 p0' p1' width used (min left room)
                              (min left' room') r r' b le0 o.0 smaller fits eq eq' in
                          let more_paid : q ≤ q' = omega (
                            arith,
                            dearer,
                            leq,
                            (add_sound quote dq es).0,
                            (add_sound quote' dq' es').0,
                          ) in
                          quote_loop_mono laws r r' width p1 p1' ps ps' 0 l l' q q' b (omega arith)
                            o.1 o.0 fewer more_paid (omega arith) h4 h4'
    ]

BelowAsks-refl : (prices : List ℕ) → BidsBelowAsks prices prices
BelowAsks-refl [] = tt
BelowAsks-refl (p ∷ ps) = (omega arith, BelowAsks-refl ps)

BelowAsks-index :
    (bids asks : List ℕ) (i : ℕ) {bid ask : ℕ}
    → BidsBelowAsks bids asks
    → index bids i ≡ ok bid
    → index asks i ≡ ok ask
    → bid ≤ ask
BelowAsks-index [] asks i o h h' = absurd (ground arith)
BelowAsks-index (b ∷ bids) [] i o h h' = absurd (ground arith)
BelowAsks-index (b ∷ bids) (a ∷ asks) zero o h h' = ground arith
BelowAsks-index (b ∷ bids) (a ∷ asks) (suc i) o h h' = BelowAsks-index bids asks i o.1 h h'

BelowAsks-drop :
    (n : ℕ) (bids asks : List ℕ)
    → length bids ≡ length asks
    → BidsBelowAsks bids asks
    → (length (drop n bids) ≡ length (drop n asks)) × BidsBelowAsks (drop n bids) (drop n asks)
BelowAsks-drop zero bids asks e o = (e, o)
BelowAsks-drop (suc n) [] [] e o = (refl, tt)
BelowAsks-drop (suc n) [] (a ∷ asks) e o = absurd (omega arith)
BelowAsks-drop (suc n) (b ∷ bids) [] e o = absurd (omega arith)
BelowAsks-drop (suc n) (b ∷ bids) (a ∷ asks) e o = BelowAsks-drop n bids asks (omega arith) o.1

-- The curve of one kind of swap is at or below that of another.
pub record CurveBelow (m : Market) (kind kind' : SwapAmountType) : Type 0 where
  pub lengths : length (curve_of m kind) ≡ length (curve_of m kind')
  pub below : BidsBelowAsks (curve_of m kind) (curve_of m kind')

pub CurveBelow-refl : (m : Market) (kind : SwapAmountType) → CurveBelow m kind kind
CurveBelow-refl m kind = record { lengths = refl; below = BelowAsks-refl (curve_of m kind) }

pub CurvesValid-CurveBelow :
    (m : Market) → CurvesValid m.bid_prices m.ask_prices → CurveBelow m exact_input exact_output
CurvesValid-CurveBelow m v = record {
  lengths = v.bids_length ∙ sym v.asks_length;
  below = v.ordered;
}

-- What is paid for a quote amount at the internal scale grows with it.
paid_mono :
    (decimals quote quote' : ℕ) (r r' : Rounding) {precision precision' a a' paid paid' : ℕ}
    → RoundsBelow r r'
    → quote ≤ quote'
    → power_of_ten decimals ≡ ok precision
    → power_of_ten decimals ≡ ok precision'
    → U128.mul quote precision ≡ ok a
    → U128.mul quote' precision' ≡ ok a'
    → Math.div a scale r ≡ ok paid
    → Math.div a' scale r' ≡ ok paid'
    → paid ≤ paid'
paid_mono decimals quote quote' r r' {precision} {precision'} {a} {a'} b le p p' m m' d d' =
    let (_, e) = div_sound a scale r d in
    let (_, e') = div_sound a' scale r' d' in
    let same : precision' ≡ precision = ok-injective (sym p' ∙ p) in
    let grown : a ≤ a' =
      rw (mul_sound quote precision m, mul_sound quote' precision' m', same)
        (mul-le-mul_right precision le) in
    rw (e, e') (quotient_mono r r' a a' scale b (omega arith) grown)

pub rest_fits : (n width : ℕ) {used : ℕ} → Word.rem n width ≡ ok used → used ≤ width
rest_fits n width h = ground arith

-- Where the 256-bit integers obey their laws: of two quotes of a market at one supply that both
-- succeed, one for at least the base amount of the other, on a curve that is nowhere below the
-- other's and of its length, and not rounded down where the other is rounded up, is at least the
-- other. So a quote grows with the amount, and a bid is at most the ask.
pub get_quote_mono :
    {R : Ruint} (laws : Laws R) (m : Market) (supply base base' : ℕ) (kind kind' : SwapAmountType)
    (r r' : Rounding) {out out' : ℕ × ℕ}
    → RoundsBelow r r'
    → CurveBelow m kind kind'
    → base ≤ base'
    → get_quote_amount_with_parameters R m supply base kind r ≡ ok out
    → get_quote_amount_with_parameters R m supply base' kind' r' ≡ ok out'
    → out.1 ≤ out'.1
get_quote_mono {R} laws m supply base base' kind kind' r r' b c le h h' =
    let q = quoted R m supply base kind r _ h in
    let q' = quoted R m supply base' kind' r' _ h' in
    let total = ok-injective (sym q'.total_eq ∙ q.total_eq) in
    let i : q'.i ≡ q.i = ok-injective (sym q'.interval ∙ rw total q.interval) in
    let used : q'.used ≡ q.used = ok-injective (sym q'.rest ∙ rw total q.rest) in
    let (same_length, dropped) =
      BelowAsks-drop (q.i + 1) (curve_of m kind) (curve_of m kind') c.lengths c.below in
    let amounts : q.left0 ≤ q'.left0 =
      rw (normalize_base_sound base q.left0_eq, normalize_base_sound base' q'.left0_eq)
        (omega (arith, le)) in
    let grown : q.quote ≤ q'.quote =
      quote_loop_mono laws r r' m.width_scaled q.price_0 q'.price_0 _ _ q.used q.left0 q'.left0 0 0
        b same_length dropped
        (BelowAsks-index (curve_of m kind) (curve_of m kind') q.i c.below q.price
          (rw i at q'.price))
        amounts (omega arith) (rest_fits q.total m.width_scaled q.rest) q.loop
        (rw (i, used) at q'.loop) in
    let paid : q.paid ≤ q'.paid =
      paid_mono m.quote_token_decimals q.quote q'.quote r r' b grown q.precision_eq q'.precision_eq
        q.paid_scaled_eq q'.paid_scaled_eq q.paid_eq q'.paid_eq in
    rw (q.result, q'.result) paid
