-- ===== src/Conjunctions/Registry.antt =====
-- The cache of contexts and the matches of the clauses in pkg/agent/openflow/network_policy.go, when a
-- match is added and the change is applied.
use antrea.Common.{
  ℕ, ◌+◌, ◌≡◌, refl, sym, ap, subst, ◌∙◌, inl, inr, Option, none, some, nat_eq, get, put,
  get-put_self, Option-cases,
}
use antrea.Conjunctions.{
  GlobalKey, key_eq, generate_global_map_key, ConjunctiveMatch, ChangeType, insertion, modification,
  FlowChange, Context, Clause, ContextChange, Client,
}
use antrea.Conjunctions.Changes.{add_change, add_conjunctive_match_flow, new_context, new_drop_flow}
use antrea.Conjunctions.Updates.{update_context, update_matches, update_context_status}

-- Each cached pointer is that of a context with its key.
abbrev pub KeysAgree : Client → Type 0
KeysAgree client =
    (key : GlobalKey) (p : ℕ)
    → get client.global_conj_match_flow_cache key ≡ some p
    → (ctx : Context) × ((get client.contexts p ≡ some ctx)
        × (generate_global_map_key ctx.conjunctive_match ≡ key))

-- The clause at `cp` and the cache both know the context `p` for the key.
pub record Registered (key : GlobalKey) (cp p : ℕ) (client : Client) : Type 0 where
  pub cached : get client.global_conj_match_flow_cache key ≡ some p
  pub clause : Clause
  pub clause_at : get client.clauses cp ≡ some clause
  pub matched : get clause.matches key ≡ some p

update_registers :
    (client : Client) (cp p : ℕ) (c : Clause) (ctx : Context) (type : ChangeType)
    (drop : Option FlowChange) (priority : Option ℕ)
    → get client.contexts p ≡ some ctx
    → get client.clauses cp ≡ some c
    → get
        (update_matches type
          (generate_global_map_key ctx.conjunctive_match)
          p
          client.global_conj_match_flow_cache)
        (generate_global_map_key ctx.conjunctive_match)
      ≡ some p
    → Registered
        (generate_global_map_key ctx.conjunctive_match)
        cp
        p
        (update_context_status (add_change cp c p ctx type drop priority) client)
unfolding update_context_status add_change update_matches
update_registers client cp p c ctx type drop priority at_p at_cp cached =
    let key = generate_global_map_key ctx.conjunctive_match in
    let ch = add_change cp c p ctx type drop priority in
    let result : Client = record client {
      contexts = put client.contexts p (update_context ch c.action.conj_id ctx);
      clauses = put client.clauses cp (record c { matches = put c.matches key p });
      global_conj_match_flow_cache = update_matches type key p client.global_conj_match_flow_cache;
    } in
    let e : update_context_status ch client ≡ result =
      rw (at_p, update_context_status) (rw (at_cp, update_context_status) refl) in
    subst (Registered key cp p) (sym e) (record {
      cached = cached;
      clause = record c { matches = put c.matches key p };
      clause_at = get-put_self client.clauses cp (record c { matches = put c.matches key p });
      matched = get-put_self c.matches key p;
    })

-- The context for what the cache has: the cached one, or else the next new one.
abbrev pub context_for : Client → Option ℕ → ℕ
context_for client none = client.next_context
context_for client (some p) = p

abbrev pub found_or_new : Client → ConjunctiveMatch → Option ℕ → Option Context
found_or_new client m none = some (new_context m)
found_or_new client m (some p) = get client.contexts p

abbrev pub cached_for : Client → ConjunctiveMatch → Option ℕ
cached_for client m = get client.global_conj_match_flow_cache (generate_global_map_key m)

-- An addition by what it returns.
abbrev RegistersBy :
    ConjunctiveMatch → ℕ → ℕ → Option Context → Client × Option ContextChange → Type 0
RegistersBy m cp p ctx answer =
    (ch : ContextChange) × ((answer.1 ≡ some ch)
      × (ch.context ≡ p)
      × (get answer.0.contexts p ≡ ctx)
      × Registered (generate_global_map_key m) cp ch.context (update_context_status ch answer.0))

add_new :
    (client : Client) (cp : ℕ) (c : Clause) (m : ConjunctiveMatch)
    → get c.matches (generate_global_map_key m) ≡ none
    → get client.global_conj_match_flow_cache (generate_global_map_key m) ≡ none
    → add_conjunctive_match_flow client cp c m ≡ (
      record client {
        contexts = put client.contexts client.next_context (new_context m);
        next_context = client.next_context + 1;
      },
      some (
          add_change cp c client.next_context
            (new_context m)
            insertion
            (new_drop_flow c m)
            m.priority),
    )
unfolding add_conjunctive_match_flow
add_new client cp c m absent uncached =
    rw (absent, add_conjunctive_match_flow) (rw (uncached, add_conjunctive_match_flow) refl)

add_known :
    (client : Client) (cp : ℕ) (c : Clause) (m : ConjunctiveMatch) (p : ℕ) (ctx : Context)
    → get c.matches (generate_global_map_key m) ≡ none
    → get client.global_conj_match_flow_cache (generate_global_map_key m) ≡ some p
    → get client.contexts p ≡ some ctx
    → add_conjunctive_match_flow client cp c m
      ≡ (client, some (add_change cp c p ctx modification none m.priority))
unfolding add_conjunctive_match_flow
add_known client cp c m p ctx absent cached at_p =
    rw (absent, add_conjunctive_match_flow)
      (rw (cached, add_conjunctive_match_flow) (rw (at_p, add_conjunctive_match_flow) refl))

-- An added match that the clause does not have yet gives a change of the context that the cache
-- has under the key of the match, or of a new one with the match and nothing else if it has none;
-- and once the change is applied the clause and the cache have that context under the key. Before
-- it each cached context has the key that it is cached under.
pub add-Registered :
    (client : Client) (cp : ℕ) (c : Clause) (m : ConjunctiveMatch)
    → KeysAgree client
    → get client.clauses cp ≡ some c
    → get c.matches (generate_global_map_key m) ≡ none
    → (ch : ContextChange) × (((add_conjunctive_match_flow client cp c m).1 ≡ some ch)
        × (ch.context ≡ context_for client (cached_for client m))
        × (get
              (add_conjunctive_match_flow client cp c m).0.contexts
              (context_for client (cached_for client m))
            ≡ found_or_new client m (cached_for client m))
        × Registered
            (generate_global_map_key m)
            cp
            ch.context
            (update_context_status ch (add_conjunctive_match_flow client cp c m).0))
unfolding update_matches new_context add_change
add-Registered client cp c m agree at_cp absent =
    elim (Option-cases (get client.global_conj_match_flow_cache (generate_global_map_key m))) [
      | inl uncached ↦
          let fresh : Client = record client {
            contexts = put client.contexts client.next_context (new_context m);
            next_context = client.next_context + 1;
          } in
          subst
            (λ o.
              RegistersBy m cp (context_for client o) (found_or_new client m o)
                (add_conjunctive_match_flow client cp c m))
            (sym uncached)
            (subst (RegistersBy m cp client.next_context (some (new_context m)))
              (sym (add_new client cp c m absent uncached))
              (
                add_change cp c client.next_context (new_context m) insertion (new_drop_flow c m)
                    m.priority,
                (
                  refl,
                  refl,
                  get-put_self client.contexts client.next_context (new_context m),
                  update_registers fresh cp client.next_context c (new_context m) insertion
                      (new_drop_flow c m) m.priority
                      (get-put_self client.contexts client.next_context (new_context m)) at_cp
                      (get-put_self client.global_conj_match_flow_cache (generate_global_map_key m)
                        client.next_context),
                ),
              ))
      | inr (p, cached) ↦
          let known = agree (generate_global_map_key m) p cached in
          subst
            (λ o.
              RegistersBy m cp (context_for client o) (found_or_new client m o)
                (add_conjunctive_match_flow client cp c m))
            (sym cached)
            (subst (RegistersBy m cp p (get client.contexts p))
              (sym (add_known client cp c m p known.0 absent cached known.1.0))
              (
                add_change cp c p known.0 modification none m.priority,
                (
                  refl,
                  refl,
                  refl,
                  subst
                      (λ key. Registered key cp p (
                        update_context_status
                          (add_change cp c p known.0 modification none m.priority) client))
                      known.1.1
                      (update_registers client cp p c known.0 modification none m.priority known.1.0
                        at_cp (ap (get client.global_conj_match_flow_cache) known.1.1 ∙ cached)),
                ),
              ))
    ]
