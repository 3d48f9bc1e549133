-- ===== src/Registry/Tools/Laws.antt =====
-- What registration keeps: the names are distinct, well-formed, and free of the framework's arguments.
use besterp.Prelude.{
  ◌≡◌, ◌≢◌, refl, sym, subst, ◌↔◌, inl, inr, Bool, true, false, not, Option, none, some, List, [],
  ◌∷◌, ◌++◌, arith, ◌==◌, if◌then◌else◌, Bool-cases, length, All,
}
use besterp.Text.{Text, lit, text_eq, trim, includes}
use besterp.Text.Laws.{text_eq_refl, text_eq→≡}
use besterp.Tool.{ZodSchemaLike, ToolDefinition, ToolMiddleware}
use besterp.Registry.Names.{is_snake_case, is_lower, starts_with}
use besterp.Registry.Names.Laws.{IsSnakeCase, is_snake_case_iff}
use besterp.Registry.Tools.{
  ToolRegistry, RegistryEntry, Registration, registered, register, find_entry, drop_cached,
  envelope_key_collision, check_new, check_collision, set_tool,
}

pub find_entry-append :
    (n : Text) (es fs : List RegistryEntry) {e : RegistryEntry}
    → find_entry n es ≡ some e
    → find_entry n (es ++ fs) ≡ some e
unfolding find_entry
find_entry-append n [] fs h = cc
find_entry-append n (x ∷ es) fs {e} h = ground (arith, find_entry-append n es fs {e = e})

-- No tool of the list has the name.
abbrev pub IsNew : Text → List RegistryEntry → Type 0
IsNew n = All (λ e. e.definition.name ≢ n)

find_entry-IsNew : (n : Text) (es : List RegistryEntry) → find_entry n es ≡ none → IsNew n es
unfolding find_entry
find_entry-IsNew n [] h = tt
find_entry-IsNew n (e ∷ es) h =
    (λ q. absurd (ground (arith, text_eq_refl n, rw q at h)), find_entry-IsNew n es (ground arith))

IsNew-find_entry : (n : Text) (es : List RegistryEntry) → IsNew n es → find_entry n es ≡ none
unfolding find_entry
IsNew-find_entry n [] h = refl
IsNew-find_entry n (e ∷ es) (h, hs) = elim (Bool-cases (text_eq e.definition.name n)) [
  | inl same ↦ absurd (h (text_eq→≡ e.definition.name n same))
  | inr other ↦ rw (other, IsNew-find_entry n es hs) refl
]

pub some-none : {A : Type 0} {a : A} → some a ≡ none → ⊥
some-none e = cc

-- No declared field has a name that the framework takes for itself.
abbrev pub IsFrameworkFree : Option (List Text) → Type 0
IsFrameworkFree none = Unit
IsFrameworkFree (some declared) =
    All (λ field. field ≢ lit "idempotencyKey") declared
    × All (λ field. field ≢ lit "confirmation") declared

-- What registration asks of a tool by itself.
pub record IsRegistrable (d : ToolDefinition) : Type 0 where
  pub snake_case : IsSnakeCase d.name
  pub described : (length (trim d.description) == 0) ≡ false
  pub framework_free : IsFrameworkFree d.input_schema.shape

excludes-All : (k : Text) (fs : List Text) → includes k fs ≡ false → All (λ f. f ≢ k) fs
unfolding includes
excludes-All k [] h = tt
excludes-All k (f ∷ fs) h =
    (λ e. absurd (ground (arith, text_eq_refl k, rw e at h)), excludes-All k fs (ground arith))

All-excludes : (k : Text) (fs : List Text) → All (λ f. f ≢ k) fs → includes k fs ≡ false
unfolding includes
All-excludes k [] h = refl
All-excludes k (f ∷ fs) (h, hs) = elim (Bool-cases (text_eq f k)) [
  | inl e ↦ absurd (h (text_eq→≡ f k e))
  | inr e ↦ rw (e, All-excludes k fs hs) refl
]

collision-IsFrameworkFree :
    (schema : ZodSchemaLike) (o : Option (List Text))
    → schema.shape ≡ o
    → envelope_key_collision schema ≡ none
    → IsFrameworkFree o
unfolding envelope_key_collision
collision-IsFrameworkFree schema none e h = tt
collision-IsFrameworkFree schema (some declared) e h =
    elim (Bool-cases (includes (lit "idempotencyKey") declared)) [
      | inl key ↦ absurd (some-none (rw (e, key) at h))
      | inr no_key ↦ elim (Bool-cases (includes (lit "confirmation") declared)) [
        | inl confirmation ↦ absurd (some-none (rw (e, no_key, confirmation) at h))
        | inr none_at_all ↦ (
          excludes-All (lit "idempotencyKey") declared no_key,
          excludes-All (lit "confirmation") declared none_at_all,
        )
      ]
    ]

IsFrameworkFree-collision :
    (schema : ZodSchemaLike) (o : Option (List Text))
    → schema.shape ≡ o
    → IsFrameworkFree o
    → envelope_key_collision schema ≡ none
unfolding envelope_key_collision
IsFrameworkFree-collision schema none e h = rw e refl
IsFrameworkFree-collision schema (some declared) e (h, k) =
    rw
      (
        e,
        All-excludes (lit "idempotencyKey") declared h,
        All-excludes (lit "confirmation") declared k,
      )
      refl

-- No tool has the name of a tool that was registered after it.
abbrev pub Distinct : List RegistryEntry → Type 0
Distinct [] = Unit
Distinct (e ∷ es) = IsNew e.definition.name es × Distinct es

pub record IsWellFormed (es : List RegistryEntry) : Type 0 where
  pub distinct : Distinct es
  pub registrable : All (λ e. IsRegistrable e.definition) es

All-append :
    (P : RegistryEntry → Type 0) (es : List RegistryEntry) (e : RegistryEntry)
    → All P es
    → P e
    → All P (es ++ e ∷ [])
All-append P [] e h new = (new, tt)
All-append P (x ∷ es) e (h, hs) new = (h, All-append P es e hs new)

Distinct-append :
    (es : List RegistryEntry) (e : RegistryEntry)
    → Distinct es
    → IsNew e.definition.name es
    → Distinct (es ++ e ∷ [])
Distinct-append [] e h new = (tt, tt)
Distinct-append (x ∷ es) e (h, hs) (n, ns) = (
  All-append (λ y. y.definition.name ≢ x.definition.name) es e h (λ q. n (sym q)),
  Distinct-append es e hs ns,
)

-- Such a name is not empty, and has no reserved prefix.
snake_case-plain :
    (n : Text)
    → is_snake_case n ≡ true
    → ((length n == 0) ≡ false) × (starts_with n (lit "__") ≡ false)
unfolding is_snake_case is_lower starts_with
snake_case-plain [] h = cc
snake_case-plain (c ∷ n) h = ground arith

module _ (d : ToolDefinition) (ms : List ToolMiddleware) (r : ToolRegistry) where
  abbrev pub new_entry : RegistryEntry
  new_entry = record { definition = d; middlewares = ms }

  -- The registry with the tool, last in order, and without a pipeline of its name.
  abbrev pub with_tool : ToolRegistry
  with_tool = record r {
    tools = r.tools ++ new_entry ∷ [];
    pipeline_cache = drop_cached d.name r.pipeline_cache;
  }

  pub record Admits (r' : ToolRegistry) : Type 0 where
    pub registrable : IsRegistrable d
    pub new : IsNew d.name r.tools
    pub result : r' ≡ with_tool

  passed :
      (b : Bool) (error next : Registration) {r' : ToolRegistry}
      → (error ≡ registered r' → ⊥)
      → (if b then error else next) ≡ registered r'
      → (b ≡ false) × (next ≡ registered r')
  passed true error next fails h = absurd (fails h)
  passed false error next fails h = (refl, h)

  collision-passed :
      (k : Option Text) {r' : ToolRegistry}
      → check_collision r d ms k ≡ registered r'
      → (k ≡ none) × (r' ≡ with_tool)
  unfolding check_collision set_tool
  collision-passed (some key) h = cc
  collision-passed none h = (refl, cc)

  new-passed :
      (o : Option RegistryEntry) {r' : ToolRegistry}
      → check_new r d ms o ≡ registered r'
      → (o ≡ none)
        × (check_collision r d ms (envelope_key_collision d.input_schema) ≡ registered r')
  unfolding check_new
  new-passed (some e) h = cc
  new-passed none h = (refl, h)

  pub register-Admits : (r' : ToolRegistry) → register d ms r ≡ registered r' → Admits r'
  unfolding register
  register-Admits r' h =
      let (named, h1) = passed (length d.name == 0) _ _ (λ e. cc) h in
      let (text, h2) = passed (length (trim d.description) == 0) _ _ (λ e. cc) h1 in
      let (free, h3) = passed (starts_with d.name (lit "__")) _ _ (λ e. cc) h2 in
      let (snake, h4) = passed (not (is_snake_case d.name)) _ _ (λ e. cc) h3 in
      let (new, h5) = new-passed (find_entry d.name r.tools) h4 in
      let (clear, result) = collision-passed (envelope_key_collision d.input_schema) h5 in
      record {
        registrable = record {
          snake_case = (is_snake_case_iff d.name).0 (ground (arith, snake));
          described = text;
          framework_free = collision-IsFrameworkFree d.input_schema d.input_schema.shape refl clear;
        };
        new = find_entry-IsNew d.name r.tools new;
        result = result;
      }

  Admits-register : (r' : ToolRegistry) → Admits r' → register d ms r ≡ registered r'
  unfolding register check_new check_collision set_tool
  Admits-register r' a =
      let snake = (is_snake_case_iff d.name).1 a.registrable.snake_case in
      let (named, free) = snake_case-plain d.name snake in
      rw
        (
          named,
          a.registrable.described,
          free,
          snake,
          IsNew-find_entry d.name r.tools a.new,
          IsFrameworkFree-collision d.input_schema d.input_schema.shape refl
              a.registrable.framework_free,
          a.result,
        )
        refl

  -- A tool is registered exactly if its name is snake_case and new, it has a description and no
  -- declared input field is called idempotencyKey or confirmation; it is then added and nothing
  -- else changes, but for the cached pipeline of its name.
  pub register_iff : (r' : ToolRegistry) → (register d ms r ≡ registered r') ↔ Admits r'
  register_iff r' = (register-Admits r', Admits-register r')

  -- Registration keeps the tool names distinct, and every registered tool snake_case, described
  -- and without a declared input field called idempotencyKey or confirmation.
  pub register-IsWellFormed :
      (r' : ToolRegistry)
      → IsWellFormed r.tools
      → register d ms r ≡ registered r'
      → IsWellFormed r'.tools
  register-IsWellFormed r' wf h =
      let a = register-Admits r' h in
      subst (λ x. IsWellFormed x.tools) (sym a.result)
        (record {
          distinct = Distinct-append r.tools new_entry wf.distinct a.new;
          registrable =
              All-append (λ e. IsRegistrable e.definition) r.tools new_entry wf.registrable
                a.registrable;
        })
