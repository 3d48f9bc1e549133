-- ===== src/Gate/Laws.antt =====
-- What lets a call through the confirmation gate.
use besterp.Prelude.{
  length-take, ◌≤◌, ◌≡◌, refl, ◌∙◌, subst, ◌⊎◌, take, inl, inr, Bool, true, false, Option, none,
  some, arith, ltb, ◌==◌, Bool-cases, length,
}
use besterp.Text.{Text, lit, trim}
use besterp.Value.{
  Value, Fields, undefined, null, boolean, number, string, array, object, get, as_object,
}
use besterp.Surrogates.{normalize_unpaired_surrogates}
use besterp.Support.{Support, Attempt, returns, fails}
use besterp.Limits.{min_confirmation_length, max_confirmation_length}
use besterp.Store.{GateRow, find_gate}
use besterp.Run.{Run, World, done, throws, Thrown, arrive, fault, query}
use besterp.Tool.{
  RiskLevel, low, medium, high, critical, ToolContext, ToolResult, ToolDefinition, Next,
}
use besterp.Gate.{
  Validation, valid, invalid, broken, visible, check_visible, check_text, validate_confirmation,
  from_input, read_confirmation, confirmation_required_error, invalid_confirmation_error,
  gate_unavailable_error, is_gated_risk, gate_enabled, look_up_gate, with_confirmation, with_gate,
  confirmation_gate_middleware,
}

-- A confirmation with a minimum of visible text, of a length that the audit row holds.
pub record IsConfirmation (c : Text) : Type 0 where
  pub enough : min_confirmation_length ≤ length (trim c)
  pub bounded : length c ≤ max_confirmation_length

-- The call came with the text: in its context, or else in its input.
pub data Supplies (input : Value) (context : ToolContext) (s : Text) : Type 0 where
  in_context : context.confirmation ≡ string s → Supplies input context s
  in_input :
      (fs : Fields)
      → context.confirmation ≡ undefined
      → as_object input ≡ some fs
      → get (lit "confirmation") fs ≡ string s
      → Supplies input context s

from_input-string :
    (o : Option Fields) (s : Text)
    → from_input o ≡ string s
    → (fs : Fields) × (o ≡ some fs) × (get (lit "confirmation") fs ≡ string s)
unfolding from_input
from_input-string none s h = cc
from_input-string (some fs) s h = (fs, refl, h)

read-Supplies :
    (input : Value) (context : ToolContext) (s : Text) (v : Value)
    → context.confirmation ≡ v
    → read_confirmation input context ≡ string s
    → Supplies input context s
unfolding read_confirmation
read-Supplies input context s undefined e h =
    let (fs, here, same) = from_input-string (as_object input) s (rw e at h) in
    in_input fs e here same
read-Supplies input context s null e h = in_context (cc (rw e at h))
read-Supplies input context s (string t) e h = in_context (e ∙ (rw e at h))
read-Supplies input context s (boolean b) e h = in_context (cc (rw e at h))
read-Supplies input context s (number n) e h = in_context (cc (rw e at h))
read-Supplies input context s (array vs) e h = in_context (cc (rw e at h))
read-Supplies input context s (object fs) e h = in_context (cc (rw e at h))

-- A risk that asks for a look at the gate table.
abbrev pub IsHighRisk : RiskLevel → Type 0
IsHighRisk risk = (risk ≡ high) ⊎ (risk ≡ critical)

-- The gate table does not ask for a confirmation.
abbrev pub IsOff : Option GateRow → Type 0
IsOff o = (o ≡ none) ⊎ ((g : GateRow) × (o ≡ some g) × (g.enabled ≡ false))

module _ (lib : Support) where
  -- The text is what shows of the value, a string of at most 500 characters but for the blanks around
  -- it.
  pub record IsVisible (v : Value) (c : Text) : Type 0 where
    pub given : Text
    pub stripped : Text
    pub is_text : v ≡ string given
    pub fits : length (trim given) ≤ max_confirmation_length
    pub strips : lib.strip_html_tags (trim given) ≡ returns stripped
    pub shown :
        c
        ≡ take max_confirmation_length
            (normalize_unpaired_surrogates (lib.sanitize_for_log_output stripped))

  -- What the validation of a value has established.
  abbrev pub IsSound : Value → Validation → Type 0
  IsSound v (valid c) = IsConfirmation c × IsVisible v c
  IsSound v (invalid r) = r.success ≡ false
  IsSound v (broken e) = Unit

  visible-bounded : (s : Text) → length (visible lib s) ≤ max_confirmation_length
  unfolding visible
  visible-bounded s =
      length-take max_confirmation_length
        (normalize_unpaired_surrogates (lib.sanitize_for_log_output s))

  check_visible-IsSound :
      (tool s : Text) (a : Attempt Text)
      → length (trim s) ≤ max_confirmation_length
      → lib.strip_html_tags (trim s) ≡ a
      → IsSound (string s) (check_visible lib tool a)
  unfolding check_visible invalid_confirmation_error visible
  check_visible-IsSound tool s (fails e) fits h = tt
  check_visible-IsSound tool s (returns t) fits h =
      elim (Bool-cases (ltb (length (trim (visible lib t))) min_confirmation_length)) [
        | inl short ↦ rw short refl
        | inr long ↦ rw long (
          record { enough = ground arith; bounded = visible-bounded t },
          record { given = s; stripped = t; is_text = refl; fits = fits; strips = h; shown = refl },
        )
      ]

  check_text-IsSound : (tool s : Text) → IsSound (string s) (check_text lib tool (trim s))
  unfolding check_text invalid_confirmation_error
  check_text-IsSound tool s = elim (Bool-cases (length (trim s) == 0)) [
    | inl empty ↦ rw empty refl
    | inr nonempty ↦ elim (Bool-cases (ltb max_confirmation_length (length (trim s)))) [
      | inl long ↦ rw (nonempty, long) refl
      | inr fits ↦
          rw (nonempty, fits)
            (check_visible-IsSound tool s (lib.strip_html_tags (trim s)) (ground arith) refl)
    ]
  ]

  -- Whatever is supplied, what passes is a confirmation, also after sanitizing.
  validate-IsSound : (v : Value) (tool : Text) → IsSound v (validate_confirmation lib v tool)
  unfolding validate_confirmation confirmation_required_error invalid_confirmation_error
  validate-IsSound undefined tool = refl
  validate-IsSound null tool = refl
  validate-IsSound (string s) tool = check_text-IsSound tool s
  validate-IsSound (boolean b) tool = refl
  validate-IsSound (number n) tool = refl
  validate-IsSound (array vs) tool = refl
  validate-IsSound (object fs) tool = refl

  is_gated_risk-low : (risk : RiskLevel) → is_gated_risk lib risk ≡ false → ¬ IsHighRisk risk
  unfolding is_gated_risk
  is_gated_risk-low risk h (inl e) = cc (rw e at h)
  is_gated_risk-low risk h (inr e) = cc (rw e at h)

  is_gated_risk-high : (risk : RiskLevel) → is_gated_risk lib risk ≡ true → IsHighRisk risk
  unfolding is_gated_risk
  is_gated_risk-high high h = inl refl
  is_gated_risk-high critical h = inr refl
  is_gated_risk-high RiskLevel.none h = cc
  is_gated_risk-high low h = cc
  is_gated_risk-high medium h = cc

  gate_enabled-IsOff : (o : Option GateRow) → gate_enabled lib o ≡ false → IsOff o
  unfolding gate_enabled
  gate_enabled-IsOff none h = inl refl
  gate_enabled-IsOff (some g) h = inr (g, refl, h)

module _ (lib : Support) (input : Value) (context : ToolContext) (d : ToolDefinition)
    (w : World) where
  -- What the gate does with a call, as a function of what stands behind it.
  pub data Gated (run : Next → Run ToolResult) : Type 0 where
    ungated :
        ¬ IsHighRisk d.risk_level → ((next : Next) → run next ≡ next input context w) → Gated run
    disabled :
        fault w ≡ none
        → IsOff (find_gate d.name (arrive w).store.gates)
        → ((next : Next) → run next ≡ next input context (arrive w))
        → Gated run
    confirmed :
        (c s : Text)
        → fault w ≡ none
        → IsConfirmation c
        → Supplies input context s
        → IsVisible lib (string s) c
        → ((next : Next)
            → run next ≡ next input (record context { confirmation = string c }) (arrive w))
        → Gated run
    blocked :
        (reply : ToolResult)
        → IsHighRisk d.risk_level
        → reply.success ≡ false
        → ((next : Next) → run next ≡ done reply (arrive w))
        → Gated run
    broken_off :
        (e : Thrown)
        → IsHighRisk d.risk_level
        → ((next : Next) → run next ≡ throws e (arrive w))
        → Gated run

  visible-confirmed :
      (c : Text) {run : Next → Run ToolResult}
      → fault w ≡ none
      → IsConfirmation c
      → IsVisible lib (read_confirmation input context) c
      → ((next : Next)
          → run next ≡ next input (record context { confirmation = string c }) (arrive w))
      → Gated run
  visible-confirmed c no_fault h v g =
      confirmed c v.given no_fault h
        (read-Supplies input context v.given context.confirmation refl v.is_text)
        (subst (λ x. IsVisible lib x c) v.is_text v) g

  validated-Gated :
      (v : Validation)
      → IsHighRisk d.risk_level
      → fault w ≡ none
      → IsSound lib (read_confirmation input context) v
      → Gated (λ next. with_confirmation lib input context next v (arrive w))
  unfolding with_confirmation
  validated-Gated (valid c) risk no_fault (h, v) = visible-confirmed c no_fault h v (λ next. refl)
  validated-Gated (invalid r) risk no_fault h = blocked r risk h (λ next. refl)
  validated-Gated (broken e) risk no_fault h = broken_off e risk (λ next. refl)

  looked_up-Gated :
      (o : Option Thrown) (enabled : Bool)
      → IsHighRisk d.risk_level
      → fault w ≡ o
      → gate_enabled lib (find_gate d.name (arrive w).store.gates) ≡ enabled
      → Gated (λ next.
        with_gate lib input context d next
          (elim o [ none ↦ done enabled (arrive w) | some e ↦ throws e (arrive w) ]))
  unfolding with_gate gate_unavailable_error
  looked_up-Gated (some e) enabled risk f g =
      blocked (gate_unavailable_error d.name) risk refl (λ next. refl)
  looked_up-Gated none false risk f g = disabled f (gate_enabled-IsOff lib _ g) (λ next. refl)
  looked_up-Gated none true risk f g =
      validated-Gated (validate_confirmation lib (read_confirmation input context) d.name) risk f
        (validate-IsSound lib (read_confirmation input context) d.name)

  look_up-cases :
      (o : Option Thrown)
      → fault w ≡ o
      → look_up_gate lib d.name w ≡ (elim o [
        | none ↦ done (gate_enabled lib (find_gate d.name (arrive w).store.gates)) (arrive w)
        | some e ↦ throws e (arrive w)
      ])
  unfolding look_up_gate query
  look_up-cases none e = rw e
  look_up-cases (some x) e = rw e

  -- A call passes the gate only if the tool's risk is below high, or the gate table was read and
  -- asks for no confirmation, or the call came with a text, in its context or else in its input,
  -- whose visible part is a sound confirmation, which is handed on; else nothing behind the gate
  -- runs.
  pub confirmation_gate-Gated :
      Gated (λ next. confirmation_gate_middleware lib input context d next w)
  unfolding confirmation_gate_middleware
  confirmation_gate-Gated = elim (Bool-cases (is_gated_risk lib d.risk_level)) [
    | inr below ↦ rw below (ungated (is_gated_risk-low lib d.risk_level below) (λ next. refl))
    | inl gated ↦
        rw (gated, look_up-cases (fault w) refl)
          (looked_up-Gated (fault w) (gate_enabled lib (find_gate d.name (arrive w).store.gates))
            (is_gated_risk-high lib d.risk_level gated) refl refl)
  ]
