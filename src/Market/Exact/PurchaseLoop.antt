-- ===== src/Market/Exact/PurchaseLoop.antt =====
-- programs/token-mill/src/state/market.rs: what `get_base_amount_out` takes covers the tokens it gives
-- out.
use sol_token_mill.Word
use sol_token_mill.Word.U128
use sol_token_mill.Math
use native.Mathlib.Nat.{add-mul}
use sol_token_mill.Base.{
  Bool-cases, List, [], ap, arith, inl, inr, ℕ, ◌*◌, ◌+◌, ◌-◌, ◌==◌, ◌∙◌, ◌∷◌, ◌≡◌, ◌≤◌,
}
use sol_token_mill.Constant.{scale}
use sol_token_mill.Errors.{ok, on_ok}
use sol_token_mill.Market.Bounds.{PricesAtMost}
use sol_token_mill.Market.Exact.{base_out_loop}
use sol_token_mill.Market.Exact.Step.{StepUp, get_delta_base_out-StepUp}
use sol_token_mill.Market.Monotone.{add_sound, sub_sound}
use sol_token_mill.Market.Worth.{worth_from, worth_from-past, worth_from-used, worth_from-zero}
use sol_token_mill.Math.Steps.{limit}
use sol_token_mill.Ruint.{Laws, Ruint}

-- What the loop has given out from a position on, and what it has taken for it.
pub record BoughtFrom (width price_0 : ℕ) (prices : List ℕ) (used left base : ℕ) (out : ℕ × ℕ)
    : Type 0 where
  pub given : base ≤ out.0
  pub left_le : out.1 ≤ left
  pub worth :
      worth_from width price_0 prices (used + (out.0 - base))
      ≤ worth_from width price_0 prices used + (left - out.1) * (2 * scale * width)

BoughtFrom-start :
    (width price_0 : ℕ) (prices : List ℕ) (used left base : ℕ) (out : ℕ × ℕ)
    → out.0 ≡ base
    → out.1 ≡ left
    → BoughtFrom width price_0 prices used left base out
BoughtFrom-start width price_0 prices used left base out e e' =
    let same : used + (out.0 - base) ≡ used = omega (arith, e) in
    record { given = omega (arith, e); left_le = omega (arith, e'); worth = rw same (omega arith) }

base_out_loop-finished :
    (R : Ruint) (width price_0 : ℕ) (prices : List ℕ) (used left base : ℕ) {out : ℕ × ℕ}
    → left ≡ 0
    → base_out_loop R width price_0 prices used left base ≡ ok out
    → (out.0 ≡ base) × (out.1 ≡ 0)
unfolding base_out_loop
base_out_loop-finished R width price_0 [] used left base e h = ground arith
base_out_loop-finished R width price_0 (p ∷ ps) used left base e h = ground arith

-- A step within the interval, which ends the loop.
BoughtFrom-last :
    (width price_0 price_1 : ℕ) (prices : List ℕ) (used left base : ℕ) (d out : ℕ × ℕ)
    → used ≤ width
    → StepUp price_0 price_1 width used left d
    → d.1 ≡ left
    → out.0 ≡ base + d.0
    → out.1 ≡ 0
    → BoughtFrom width price_0 (price_1 ∷ prices) used left base out
BoughtFrom-last width price_0 price_1 prices used left base d out fits s named e e' =
    let reached : used + (out.0 - base) ≡ used + d.0 = omega (arith, e) in
    let spent : left - out.1 ≡ d.1 = omega (arith, e', named) in
    record {
      given = omega (arith, e);
      left_le = omega (arith, e');
      worth =
          rw
            (
              reached,
              spent,
              worth_from-used width price_0 price_1 prices (used + d.0) s.base_le,
              worth_from-used width price_0 price_1 prices used fits,
            )
            s.worth;
    }

-- A step through the rest of the interval, and then the loop over the next ones.
BoughtFrom-then :
    (width price_0 price_1 : ℕ) (prices : List ℕ) (used left base : ℕ) (d out : ℕ × ℕ)
    → used ≤ width
    → StepUp price_0 price_1 width used left d
    → d.1 ≤ left
    → used + d.0 ≡ width
    → BoughtFrom width price_1 prices 0 (left - d.1) (base + d.0) out
    → BoughtFrom width price_0 (price_1 ∷ prices) used left base out
BoughtFrom-then width price_0 price_1 prices used left base d out fits s le filled b =
    let further = out.0 - (base + d.0) in
    let reached : used + (out.0 - base) ≡ width + further = omega (arith, b.given, filled) in
    let onward : 0 + further ≡ further = omega arith in
    let split =
      ap (λ (x : ℕ). x * (2 * scale * width)) {x = left - out.1} {y = d.1 + (left - d.1 - out.1)}
        (omega (arith, b.left_le, le))
      ∙ add-mul d.1 (left - d.1 - out.1) (2 * scale * width) in
    record {
      given = omega (arith, b.given);
      left_le = omega (arith, b.left_le);
      worth =
          rw
            (
              reached,
              split,
              worth_from-past width price_0 price_1 prices further,
              worth_from-used width price_0 price_1 prices used fits,
            )
            (omega (
              arith,
              rw filled at s.worth,
              rw (onward, worth_from-zero width price_1 prices) at b.worth,
            ));
    }

pub base_out_loop-BoughtFrom :
    {R : Ruint} (laws : Laws R) (width price_0 : ℕ) (prices : List ℕ) (used left base : ℕ)
    {out : ℕ × ℕ}
    → PricesAtMost limit prices
    → width ≤ limit
    → used ≤ width
    → base_out_loop R width price_0 prices used left base ≡ ok out
    → BoughtFrom width price_0 prices used left base out
unfolding base_out_loop
base_out_loop-BoughtFrom laws width price_0 [] used left base {out} hp hw hu h =
    BoughtFrom-start width price_0 [] used left base out (ground arith) (ground arith)
base_out_loop-BoughtFrom {R} laws width price_0 (price_1 ∷ prices) used left base {out} hp hw hu h =
    elim (Bool-cases (left == 0)) [
      | inl done ↦
          BoughtFrom-start width price_0 (price_1 ∷ prices) used left base out (ground arith)
            (ground arith)
      | inr more ↦
          on_ok (Math.get_delta_base_out R price_0 price_1 width used left) (rw more at h)
            λ d ed h1. on_ok (U128.add base d.0) h1 λ base' eb h2.
              on_ok (Word.sub left d.1) h2 λ left' el h3.
                let s =
                  get_delta_base_out-StepUp laws price_0 price_1 width used left d hp.0 hw hu ed in
                let (left_eq, d_le) = sub_sound left d.1 el in
                let (base_eq, _) = add_sound base d.0 eb in
                elim s.whole [
                  | inl filled ↦
                      let rest =
                        base_out_loop-BoughtFrom laws width price_1 prices 0 left' base' hp.1 hw
                          (omega arith) h3 in
                      BoughtFrom-then width price_0 price_1 prices used left base d out hu s d_le
                        filled (rw (← base_eq, ← left_eq) rest)
                  | inr named ↦
                      let (e0, e1) =
                        base_out_loop-finished R width price_1 prices 0 left' base'
                          (omega (arith, left_eq, named)) h3 in
                      BoughtFrom-last width price_0 price_1 prices used left base d out hu s named
                        (e0 ∙ base_eq) e1
                ]
    ]
