-- ===== src/Market/Exact/SaleLoop.antt =====
-- programs/token-mill/src/state/market.rs: what `get_base_amount_in` pays is covered by the tokens it
-- takes.
use sol_token_mill.Word
use sol_token_mill.Word.U128
use sol_token_mill.Math
use native.Mathlib.Nat.{add-mul, suc-mul}
use sol_token_mill.Base.{
  Bool-cases, List, [], ap, arith, drop, inl, inr, refl, suc, zero, ℕ, ◌*◌, ◌+◌, ◌-◌, ◌==◌, ◌∙◌,
  ◌∷◌, ◌≡◌, ◌≤◌,
}
use sol_token_mill.Constant.{scale}
use sol_token_mill.Errors.{ok, on_ok}
use sol_token_mill.Market.{index}
use sol_token_mill.Market.Bounds.{PricesAtMost, index-le}
use sol_token_mill.Market.Exact.{base_in_loop}
use sol_token_mill.Market.Exact.Step.{get_delta_base_in-StepDown}
use sol_token_mill.Market.Fair.{worth_of, worth_of-split}
use sol_token_mill.Market.Monotone.{add_sound, sub_sound}
use sol_token_mill.Market.Worth.{part_worth, worth_from-used}
use sol_token_mill.Math.Steps.{limit}
use sol_token_mill.Ruint.{Laws, Ruint}

next_price :
    (prices : List ℕ) (i : ℕ) {price : ℕ}
    → index prices (suc i) ≡ ok price
    → (rest : List ℕ) × (drop (suc i) prices ≡ price ∷ rest)
next_price [] i h = absurd (ground arith)
next_price (p ∷ []) i h = absurd (ground arith)
next_price (p ∷ p1 ∷ ps) zero h = (ps, ap (λ (x : ℕ). x ∷ ps) (ground arith))
next_price (p ∷ p1 ∷ ps) (suc i) h = next_price (p1 ∷ ps) i h

-- The worth of the positions within an interval, over that of its lower end.
worth_of-interval :
    (width : ℕ) (curve : List ℕ) (i : ℕ) {price_0 price_1 : ℕ}
    → index curve i ≡ ok price_0
    → index curve (suc i) ≡ ok price_1
    → (below : ℕ) × ((x : ℕ)
        → x ≤ width
        → worth_of width curve (i * width + x) ≡ below + part_worth price_0 price_1 width x)
worth_of-interval width curve i {price_0} {price_1} h0 h1 =
    let (below, f) = worth_of-split width curve i h0 in
    let (prices, e) = next_price curve i h1 in
    (below, λ x le. f x ∙ rw (e, worth_from-used width price_0 price_1 prices x le) refl)

-- A position, by the intervals below it and what is available in its own.
abbrev pub position : ℕ → ℕ → ℕ → ℕ
position width zero available = 0
position width (suc i) available = i * width + available

pub position-whole : (width i : ℕ) → position width i width ≡ i * width
position-whole width zero = omega arith
position-whole width (suc i) = omega (arith, suc-mul i width)

base_in_loop-finished :
    (R : Ruint) (curve : List ℕ) (width i price_1 available left base : ℕ) {out : ℕ × ℕ}
    → left ≡ 0
    → base_in_loop R curve width i price_1 available left base ≡ ok out
    → (out.0 ≡ base) × (out.1 ≡ 0)
unfolding base_in_loop
base_in_loop-finished R curve width zero price_1 available left base e h = ground arith
base_in_loop-finished R curve width (suc i) price_1 available left base e h = ground arith

-- What the loop has taken off a position, and what it has paid for it.
pub record SoldFrom (curve : List ℕ) (width position left base : ℕ) (out : ℕ × ℕ) : Type 0 where
  pub taken : base ≤ out.0
  pub within : out.0 ≤ base + position
  pub left_le : out.1 ≤ left
  pub worth :
      worth_of width curve (position - (out.0 - base)) + (left - out.1) * (2 * scale * width)
      ≤ worth_of width curve position

SoldFrom-start :
    (curve : List ℕ) (width position left base : ℕ) (out : ℕ × ℕ)
    → out.0 ≡ base
    → out.1 ≡ left
    → SoldFrom curve width position left base out
SoldFrom-start curve width position left base out e e' =
    let same : position - (out.0 - base) ≡ position = omega (arith, e) in
    let nothing : left - out.1 ≡ 0 = omega (arith, e') in
    record {
      taken = omega (arith, e);
      within = omega (arith, e);
      left_le = omega (arith, e');
      worth = rw (same, nothing) (omega arith);
    }

-- A step, and then the rest of the loop, from the position that the step has reached.
SoldFrom-then :
    (curve : List ℕ) (width position left base d0 d1 : ℕ) (out : ℕ × ℕ)
    → d0 ≤ position
    → d1 ≤ left
    → worth_of width curve (position - d0) + d1 * (2 * scale * width)
      ≤ worth_of width curve position
    → SoldFrom curve width (position - d0) (left - d1) (base + d0) out
    → SoldFrom curve width position left base out
SoldFrom-then curve width position left base d0 d1 out le0 le1 step s =
    let reached : position - (out.0 - base) ≡ position - d0 - (out.0 - (base + d0)) =
      omega (arith, s.taken) in
    let split =
      ap (λ (x : ℕ). x * (2 * scale * width)) {x = left - out.1} {y = d1 + (left - d1 - out.1)}
        (omega (arith, s.left_le, le1))
      ∙ add-mul d1 (left - d1 - out.1) (2 * scale * width) in
    record {
      taken = omega (arith, s.taken);
      within = omega (arith, s.within, le0);
      left_le = omega (arith, s.left_le);
      worth = rw (reached, split) (omega (arith, s.worth, step));
    }

pub base_in_loop-SoldFrom :
    {R : Ruint} (laws : Laws R) (curve : List ℕ) (width i price_1 available left base : ℕ)
    {out : ℕ × ℕ}
    → PricesAtMost limit curve
    → width ≤ limit
    → available ≤ width
    → index curve i ≡ ok price_1
    → base_in_loop R curve width i price_1 available left base ≡ ok out
    → SoldFrom curve width (position width i available) left base out
unfolding base_in_loop
base_in_loop-SoldFrom laws curve width zero price_1 available left base {out} hc hw ha e h =
    SoldFrom-start curve width 0 left base out (ground arith) (ground arith)
base_in_loop-SoldFrom {R} laws curve width (suc i) price_1 available left base {out} hc hw ha e h =
    elim (Bool-cases (left == 0)) [
      | inl done ↦
          SoldFrom-start curve width (i * width + available) left base out (ground arith)
            (ground arith)
      | inr more ↦ on_ok (index curve i) (rw more at h) λ price_0 ep h1.
          on_ok (Math.get_delta_base_in R price_0 price_1 width available left) h1 λ d ed h2.
            on_ok (U128.add base d.0) h2 λ base' eb h3. on_ok (Word.sub left d.1) h3 λ left' el h4.
              let s =
                get_delta_base_in-StepDown laws price_0 price_1 width available left d
                  (index-le limit curve (suc i) hc e) hw ha ed in
              let (below, f) = worth_of-interval width curve i ep e in
              let (left_eq, d_le) = sub_sound left d.1 el in
              let (base_eq, _) = add_sound base d.0 eb in
              let reached : i * width + available - d.0 ≡ i * width + (available - d.0) =
                omega (arith, s.base_le) in
              let step : worth_of width curve (i * width + available - d.0)
                    + d.1 * (2 * scale * width)
                  ≤ worth_of width curve (i * width + available) =
                rw (reached, f (available - d.0) (omega (arith, ha)), f available ha)
                  (omega (arith, s.worth)) in
              SoldFrom-then curve width (i * width + available) left base d.0 d.1 out
                (omega (arith, s.base_le)) d_le step
                (elim s.whole [
                  | inl all ↦
                      let border : i * width + available - d.0 ≡ position width i width =
                        omega (arith, all, position-whole width i) in
                      let rest =
                        base_in_loop-SoldFrom laws curve width i price_0 width left' base' hc hw
                          (omega arith) ep h4 in
                      rw (border, ← base_eq, ← left_eq) rest
                  | inr part ↦
                      let (e0, e1) =
                        base_in_loop-finished R curve width i price_0 width left' base'
                          (omega (arith, left_eq, part)) h4 in
                      SoldFrom-start curve width (i * width + available - d.0) (left - d.1)
                        (base + d.0) out (e0 ∙ base_eq) (omega (arith, e1, part))
                ])
    ]
