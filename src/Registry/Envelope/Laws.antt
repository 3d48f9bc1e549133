-- ===== src/Registry/Envelope/Laws.antt =====
-- What is left in the arguments of a call, and what its context gains.
use besterp.Prelude.{◌≡◌, refl, sym, ◌∙◌, Bool, true, false, not, ◌&&◌, arith, if◌then◌else◌}
use besterp.Text.{Text, text_eq}
use besterp.Text.Laws.{text_eq→≡}
use besterp.Value.{
  Value, Fields, object, end, field, get, has, omit, is_nullish, strict_eq, as_object,
}
use besterp.Tool.{ToolContext}
use besterp.Registry.Envelope.{
  key_name, confirmation_name, strip_fields, strip_envelope_keys, raw_field, is_context_key,
  Promotion, promoted, conflict, conflict_error, promoted_context, promote, promote_envelope_keys,
}

get-omit : (j k : Text) (fs : Fields) → text_eq j k ≡ false → get k (omit j fs) ≡ get k fs
unfolding get omit
get-omit j k end other = refl
get-omit j k (field i v fs) other = ground (arith, get-omit j k fs, text_eq→≡ i j, text_eq→≡ i k)

has-omit : (j k : Text) (fs : Fields) → has k fs ≡ false → has k (omit j fs) ≡ false
unfolding has omit
has-omit j k end h = refl
has-omit j k (field i v fs) h = ground (arith, has-omit j k fs)

has-omit_same : (k : Text) (fs : Fields) → has k (omit k fs) ≡ false
unfolding has omit
has-omit_same k end = refl
has-omit_same k (field i v fs) = ground (arith, has-omit_same k fs)

-- The arguments that a tool sees have none of the framework's, and every other one as it was sent.
pub record IsStripped (fs gs : Fields) : Type 0 where
  pub no_key : has key_name gs ≡ false
  pub no_confirmation : has confirmation_name gs ≡ false
  pub others :
      (k : Text)
      → text_eq key_name k ≡ false
      → text_eq confirmation_name k ≡ false
      → get k gs ≡ get k fs

omitted-IsStripped : (fs : Fields) → IsStripped fs (omit confirmation_name (omit key_name fs))
omitted-IsStripped fs = record {
  no_key = has-omit confirmation_name key_name (omit key_name fs) (has-omit_same key_name fs);
  no_confirmation = has-omit_same confirmation_name (omit key_name fs);
  others = λ k i j. get-omit confirmation_name k (omit key_name fs) j ∙ get-omit key_name k fs i;
}

strip_fields-IsStripped :
    (fs : Fields) (a b : Bool)
    → has key_name fs ≡ a
    → has confirmation_name fs ≡ b
    → IsStripped fs (if not a && not b then fs else omit confirmation_name (omit key_name fs))
strip_fields-IsStripped fs false false h g = record {
  no_key = h;
  no_confirmation = g;
  others = λ k i j. refl;
}
strip_fields-IsStripped fs true b h g = omitted-IsStripped fs
strip_fields-IsStripped fs false true h g = omitted-IsStripped fs

-- An object argument loses the framework's two fields and keeps every other one.
strip_envelope_keys-IsStripped :
    (fs : Fields) → (gs : Fields) × (strip_envelope_keys (object fs) ≡ object gs) × IsStripped fs gs
unfolding strip_envelope_keys strip_fields
strip_envelope_keys-IsStripped fs =
    (_, refl, strip_fields-IsStripped fs (has key_name fs) (has confirmation_name fs) refl refl)

true-false : true ≡ false → ⊥
true-false e = cc

and_false : (b : Bool) (v u : Value) → (if b && false then v else u) ≡ u
and_false true v u = refl
and_false false v u = refl

module _ (context : ToolContext) (raw : Value) where
  abbrev key : Value
  key = raw_field key_name (as_object raw)

  abbrev confirmation : Value
  confirmation = raw_field confirmation_name (as_object raw)

  -- The arguments and the context carry two keys that differ.
  pub record KeysConflict : Type 0 where
    pub supplied : is_nullish key ≡ false
    pub carried : is_context_key context.idempotency_key ≡ true
    pub differ : strict_eq key context.idempotency_key ≡ false

  -- The context's key stands where there is one, and else the arguments' key; the arguments'
  -- confirmation goes before the context's; nothing else changes.
  pub record IsPromoted (effective : ToolContext) : Type 0 where
    pub context_key :
        is_context_key context.idempotency_key ≡ true
        → effective.idempotency_key ≡ context.idempotency_key
    pub argument_key :
        is_context_key context.idempotency_key ≡ false
        → is_nullish key ≡ false
        → effective.idempotency_key ≡ key
    pub no_key : is_nullish key ≡ true → effective.idempotency_key ≡ context.idempotency_key
    pub argument_confirmation :
        is_nullish confirmation ≡ false → effective.confirmation ≡ confirmation
    pub context_confirmation :
        is_nullish confirmation ≡ true → effective.confirmation ≡ context.confirmation
    pub tenant : effective.tenant_id ≡ context.tenant_id
    pub user : effective.user_id ≡ context.user_id
    pub agent : effective.agent_id ≡ context.agent_id
    pub conversation : effective.conversation_id ≡ context.conversation_id

  -- What a promotion has done: it failed over two keys, or there were no two keys.
  abbrev pub Promoted : Promotion → Type 0
  Promoted (conflict reply) = KeysConflict × (reply ≡ conflict_error)
  Promoted (promoted effective) = ¬ KeysConflict × IsPromoted effective

  promoted_context-IsPromoted : IsPromoted (promoted_context context key confirmation)
  unfolding promoted_context
  promoted_context-IsPromoted = record {
    context_key = λ h. rw h (and_false (not (is_nullish key)) key context.idempotency_key);
    argument_key = λ h k. rw (h, k) refl;
    no_key = λ h. rw h refl;
    argument_confirmation = λ h. rw h refl;
    context_confirmation = λ h. rw h refl;
    tenant = refl;
    user = refl;
    agent = refl;
    conversation = refl;
  }

  promote-cases :
      (absent carried same : Bool)
      → is_nullish key ≡ absent
      → is_context_key context.idempotency_key ≡ carried
      → strict_eq key context.idempotency_key ≡ same
      → Promoted (
          if not absent && carried && not same
          then conflict conflict_error
          else promoted (promoted_context context key confirmation))
  promote-cases true carried same h i j =
      (λ c. true-false (sym h ∙ c.supplied), promoted_context-IsPromoted)
  promote-cases false false same h i j =
      (λ c. true-false (sym c.carried ∙ i), promoted_context-IsPromoted)
  promote-cases false true true h i j =
      (λ c. true-false (sym j ∙ c.differ), promoted_context-IsPromoted)
  promote-cases false true false h i j = (record { supplied = h; carried = i; differ = j }, refl)

  -- A call with two different idempotency keys is rejected and no other call is; a key in the
  -- context stands, the arguments' confirmation goes before the context's, and the identity stays.
  pub promote_envelope_keys-Promoted : Promoted (promote_envelope_keys context raw)
  unfolding promote_envelope_keys promote
  promote_envelope_keys-Promoted = promote-cases _ _ _ refl refl refl
