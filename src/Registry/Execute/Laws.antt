-- ===== src/Registry/Execute/Laws.antt =====
-- The cache of pipelines, and which calls reach a pipeline.
use besterp.Prelude.{
  ◌≡◌, refl, sym, ap, ◌∙◌, subst, inl, inr, true, false, Option, none, some, List, [], ◌∷◌, arith,
  Bool-cases,
}
use besterp.Text.{Text, text_eq}
use besterp.Text.Laws.{text_eq→≡}
use besterp.Value.{Value, undefined, null, boolean, number, string, array, object}
use besterp.Support.{Support}
use besterp.Run.{pure}
use besterp.Tool.{ToolContext, ToolResult, ToolDefinition, ToolMiddleware, Next}
use besterp.Registry.Envelope.{
  strip_envelope_keys, promote_envelope_keys, Promotion, promoted, conflict,
}
use besterp.Registry.Envelope.{conflict_error}
use besterp.Registry.Envelope.Laws.{Promoted, promote_envelope_keys-Promoted}
use besterp.Registry.Identity.{validate_context_identity, IdentityCheck, identified, rejected}
use besterp.Registry.Identity.Laws.{Established, validate_context_identity-Established}
use besterp.Registry.Tools.{
  ToolRegistry, RegistryEntry, registered, register, Cached, empty_registry, find_entry,
  find_cached, drop_cached, add_global_middleware,
}
use besterp.Registry.Tools.Laws.{
  some-none, find_entry-append, register-Admits, with_tool, new_entry,
}
use besterp.Registry.Pipeline.{compile}
use besterp.Registry.Execute.{
  Execution, execute, answered, not_a_name, with_identity, with_entry, with_promotion, run_pipeline,
  unknown_tool_error,
}

drop_cached-same : (n : Text) (cs : List Cached) → find_cached n (drop_cached n cs) ≡ none
unfolding find_cached drop_cached
drop_cached-same n [] = refl
drop_cached-same n (c ∷ cs) = ground (arith, drop_cached-same n cs)

drop_cached-other :
    (n k : Text) (cs : List Cached)
    → text_eq n k ≡ false
    → find_cached k (drop_cached n cs) ≡ find_cached k cs
unfolding find_cached drop_cached
drop_cached-other n k [] other = refl
drop_cached-other n k (c ∷ cs) other =
    ground (arith, drop_cached-other n k cs, text_eq→≡ c.tool n, text_eq→≡ c.tool k)

find_cached-head :
    (n : Text) (c : Cached) (cs : List Cached) {p : Next}
    → text_eq c.tool n ≡ true
    → find_cached n (c ∷ cs) ≡ some p
    → p ≡ c.pipeline
unfolding find_cached
find_cached-head n c cs same h = ground (arith, same)

find_cached-tail :
    (n : Text) (c : Cached) (cs : List Cached)
    → text_eq c.tool n ≡ false
    → find_cached n (c ∷ cs) ≡ find_cached n cs
unfolding find_cached
find_cached-tail n c cs other = rw other refl

module _ (lib : Support) where
  -- The pipeline that the registry's present middlewares make of the tool.
  pub record IsCompiled (r : ToolRegistry) (name : Text) (pipeline : Next) : Type 0 where
    pub entry : RegistryEntry
    pub here : find_entry name r.tools ≡ some entry
    pub same : pipeline ≡ compile lib r.global_middlewares entry.definition entry.middlewares

  abbrev pub IsCoherent : ToolRegistry → Type 0
  IsCoherent r =
      (name : Text) (pipeline : Next)
      → find_cached name r.pipeline_cache ≡ some pipeline
      → IsCompiled r name pipeline

  -- A registry that was just made has nothing cached.
  pub empty_registry-IsCoherent : IsCoherent empty_registry
  unfolding find_cached
  empty_registry-IsCoherent name pipeline h = cc

  pub add_global_middleware-IsCoherent :
      (m : ToolMiddleware) (name : Option Text) (r : ToolRegistry)
      → IsCoherent (add_global_middleware m name r)
  unfolding add_global_middleware find_cached
  add_global_middleware-IsCoherent m name r n pipeline h = cc

  -- Every cached pipeline, but possibly that of one name, is of the present middlewares.
  abbrev pub IsCoherentElsewhere : Text → ToolRegistry → Type 0
  IsCoherentElsewhere tool r =
      (name : Text) (pipeline : Next)
      → text_eq tool name ≡ false
      → find_cached name r.pipeline_cache ≡ some pipeline
      → IsCompiled r name pipeline

  kept :
      (d : ToolDefinition) (ms : List ToolMiddleware) (r : ToolRegistry)
      → IsCoherentElsewhere d.name r
      → IsCoherent (with_tool d ms r)
  kept d ms r coherent n pipeline h = elim (Bool-cases (text_eq d.name n)) [
    | inl same ↦
        let gone =
          subst (λ k. find_cached k (drop_cached d.name r.pipeline_cache) ≡ none)
            (text_eq→≡ d.name n same) (drop_cached-same d.name r.pipeline_cache) in
        absurd (some-none (sym h ∙ gone))
    | inr other ↦
        let c =
          coherent n pipeline other (sym (drop_cached-other d.name n r.pipeline_cache other) ∙ h) in
        record {
          entry = c.entry;
          here = find_entry-append n r.tools (new_entry d ms r ∷ []) c.here;
          same = c.same;
        }
  ]

  -- If the cached pipelines of a registry, but possibly that of the tool's name, are those that
  -- the present middlewares make of the tools, then after the tool's registration all of them are,
  -- so that a stale pipeline of its name is gone.
  pub register-IsCoherent :
      (d : ToolDefinition) (ms : List ToolMiddleware) (r r' : ToolRegistry)
      → IsCoherentElsewhere d.name r
      → register d ms r ≡ registered r'
      → IsCoherent r'
  register-IsCoherent d ms r r' coherent h =
      subst IsCoherent (sym (register-Admits d ms r r' h).result) (kept d ms r coherent)

module _ (lib : Support) (r : ToolRegistry) (name raw : Value) (context : ToolContext) where
  -- What became of a call: it was answered by a failure, or the tool's own pipeline runs.
  pub data Executed (x : Execution) : Type 0 where
    refused :
        (reply : ToolResult)
        → x.registry ≡ r
        → reply.success ≡ false
        → x.run ≡ pure reply
        → Executed x
    pipelined :
        (tool : Text) (e : RegistryEntry) (checked effective : ToolContext)
        → name ≡ string tool
        → find_entry tool r.tools ≡ some e
        → validate_context_identity lib context ≡ identified checked
        → promote_envelope_keys checked raw ≡ promoted effective
        → x.audited ≡ none
        → x.run
          ≡ compile lib r.global_middlewares e.definition e.middlewares
              (strip_envelope_keys raw)
              effective
        → x.registry.tools ≡ r.tools
        → IsCoherent lib x.registry
        → Executed x

  cached_more :
      (tool : Text) (e : RegistryEntry)
      → IsCoherent lib r
      → find_entry tool r.tools ≡ some e
      → IsCoherent lib (record r {
        pipeline_cache =
            record {
              tool = tool;
              pipeline = compile lib r.global_middlewares e.definition e.middlewares;
            }
            ∷ r.pipeline_cache;
      })
  cached_more tool e coherent here n pipeline h = elim (Bool-cases (text_eq tool n)) [
    | inl same ↦ record {
      entry = e;
      here = subst (λ k. find_entry k r.tools ≡ some e) (text_eq→≡ tool n same) here;
      same = find_cached-head n _ r.pipeline_cache same h;
    }
    | inr other ↦
        let c = coherent n pipeline (sym (find_cached-tail n _ r.pipeline_cache other) ∙ h) in
        record { entry = c.entry; here = c.here; same = c.same }
  ]

  entry-one :
      (tool : Text) (e e' : RegistryEntry)
      → find_entry tool r.tools ≡ some e
      → find_entry tool r.tools ≡ some e'
      → e' ≡ e
  entry-one tool e e' h h' = cc

  run_pipeline-Executed :
      (tool : Text) (e : RegistryEntry) (checked effective : ToolContext) (o : Option Next)
      → IsCoherent lib r
      → name ≡ string tool
      → find_entry tool r.tools ≡ some e
      → validate_context_identity lib context ≡ identified checked
      → promote_envelope_keys checked raw ≡ promoted effective
      → find_cached tool r.pipeline_cache ≡ o
      → Executed (run_pipeline lib r e tool raw effective o)
  unfolding run_pipeline
  run_pipeline-Executed tool e checked effective none coherent n h i p f =
      pipelined tool e checked effective n h i p refl refl refl (cached_more tool e coherent h)
  run_pipeline-Executed tool e checked effective (some pipeline) coherent n h i p f =
      let c = coherent tool pipeline f in
      pipelined tool e checked effective n h i p refl
        (ap (λ next. next (strip_envelope_keys raw) effective)
          (c.same
            ∙ ap (λ x. compile lib r.global_middlewares x.definition x.middlewares)
                (entry-one tool e c.entry h c.here)))
        refl coherent

  conflict-failure :
      (checked : ToolContext) (reply : ToolResult)
      → promote_envelope_keys checked raw ≡ conflict reply
      → reply.success ≡ false
  unfolding conflict_error
  conflict-failure checked reply h =
      ap (λ (x : ToolResult). x.success)
        (subst (Promoted checked raw) h (promote_envelope_keys-Promoted checked raw)).1

  promotion-Executed :
      (tool : Text) (e : RegistryEntry) (checked : ToolContext) (p : Promotion)
      → IsCoherent lib r
      → name ≡ string tool
      → find_entry tool r.tools ≡ some e
      → validate_context_identity lib context ≡ identified checked
      → promote_envelope_keys checked raw ≡ p
      → Executed (with_promotion lib r e tool raw checked p)
  unfolding with_promotion answered
  promotion-Executed tool e checked (conflict reply) coherent n h i p =
      refused reply refl (conflict-failure checked reply p) refl
  promotion-Executed tool e checked (promoted effective) coherent n h i p =
      run_pipeline-Executed tool e checked effective (find_cached tool r.pipeline_cache) coherent n
        h i p refl

  entry-Executed :
      (tool : Text) (checked : ToolContext) (o : Option RegistryEntry)
      → IsCoherent lib r
      → name ≡ string tool
      → validate_context_identity lib context ≡ identified checked
      → find_entry tool r.tools ≡ o
      → Executed (with_entry lib r tool raw context checked o)
  unfolding with_entry answered unknown_tool_error
  entry-Executed tool checked none coherent n i h = refused _ refl refl refl
  entry-Executed tool checked (some e) coherent n i h =
      promotion-Executed tool e checked (promote_envelope_keys checked raw) coherent n h i refl

  identity-Executed :
      (tool : Text) (o : IdentityCheck)
      → IsCoherent lib r
      → name ≡ string tool
      → Established lib context o
      → validate_context_identity lib context ≡ o
      → Executed (with_identity lib r tool raw context o)
  unfolding with_identity answered
  identity-Executed tool (rejected reply code label) coherent n established i =
      refused reply refl established.0 refl
  identity-Executed tool (identified checked) coherent n established i =
      entry-Executed tool checked (find_entry tool r.tools) coherent n i refl

  not_a_name-Executed : Executed (answered r none (not_a_name name))
  unfolding answered not_a_name
  not_a_name-Executed = refused (not_a_name name) refl refl refl

-- In a registry whose cache is coherent, a call is answered by a failure with the registry as it
-- was, or its tool is registered, its identity checked and its envelope promoted, and it runs
-- through the pipeline that the registry's present middlewares make of the tool; the cache stays
-- coherent.
pub execute-Executed :
    (lib : Support) (r : ToolRegistry) (name raw : Value) (context : ToolContext)
    → IsCoherent lib r
    → Executed lib r name raw context (execute lib r name raw context)
unfolding execute
execute-Executed lib r (string tool) raw context coherent =
    identity-Executed lib r (string tool) raw context tool (validate_context_identity lib context)
      coherent refl (validate_context_identity-Established lib context) refl
execute-Executed lib r undefined raw context coherent =
    not_a_name-Executed lib r undefined raw context
execute-Executed lib r null raw context coherent = not_a_name-Executed lib r null raw context
execute-Executed lib r (boolean b) raw context coherent =
    not_a_name-Executed lib r (boolean b) raw context
execute-Executed lib r (number n) raw context coherent =
    not_a_name-Executed lib r (number n) raw context
execute-Executed lib r (array vs) raw context coherent =
    not_a_name-Executed lib r (array vs) raw context
execute-Executed lib r (object fs) raw context coherent =
    not_a_name-Executed lib r (object fs) raw context
