-- ===== src/Traceflow/Sync.antt =====
-- syncTraceflow of pkg/controller/traceflow/controller.go and what it calls: which tags a call may
-- touch, what it sends, and how it ends.
use antrea.Common.{
  ℕ, ◌+◌, ◌≡◌, ◌≢◌, refl, inl, inr, String, false, ◌&&◌, some, arith, nat_eq, string_eq, ltb, ◌==◌,
  get, get-put, Unique, Bool-cases, ==_iff,
}
use antrea.Traceflow.{
  Controller, Traceflow, Environment, Phase, unset, pending, running, succeeded, failed, Err, Error,
  Lookup, found, not_found, lookup_error, allocate_tag, deallocate_tag_for_tf, start_traceflow,
  check_traceflow_status, sync_phase, sync_traceflow, update_traceflow_status, scan_results,
  timeout_seconds,
}
use antrea.Traceflow.Tags.{
  IsValid, Allocates, already, allocated, full, allocate_tag-Allocates, allocate_tag-IsValid,
  deallocate_tag-IsValid, get-deallocate_tag, get-deallocate-allocate,
}

deallocate_tag_for_tf-IsValid :
    (c : Controller) (tf : Traceflow) → IsValid c → IsValid (deallocate_tag_for_tf c tf)
unfolding deallocate_tag_for_tf
deallocate_tag_for_tf-IsValid c tf v = elim (Bool-cases (tf.dataplane_tag == 0)) [
  | inl e ↦ rw e v
  | inr e ↦ rw e (deallocate_tag-IsValid c tf.name tf.dataplane_tag v)
]

start_traceflow-IsValid :
    (env : Environment) (c : Controller) (tf : Traceflow)
    → IsValid c
    → IsValid (start_traceflow env c tf).0
unfolding start_traceflow update_traceflow_status
start_traceflow-IsValid env c tf v = ground (
  arith,
  allocate_tag-IsValid c tf.name v,
  deallocate_tag-IsValid (allocate_tag c tf.name).0 tf.name (allocate_tag c tf.name).1,
)

-- The states that a call may leave: the old one, that after the tag is given back, and that of
-- startTraceflow.
check_cases {ℓ} :
    (P : Controller → Type ℓ) (env : Environment) (c : Controller) (tf : Traceflow)
    → P c
    → P (deallocate_tag_for_tf c tf)
    → P (check_traceflow_status env c tf).0
unfolding check_traceflow_status
check_cases P env c tf same freed =
    elim (Bool-cases (
      (scan_results env false false tf.results).1 && (scan_results env false false tf.results).2)) [
        | inl seen ↦ rw seen freed
        | inr unseen ↦ elim (Bool-cases (ltb (tf.creation_timestamp + timeout_seconds) env.now)) [
          | inl late ↦ rw unseen (rw late freed)
          | inr early ↦ rw unseen (rw early same)
        ]
      ]

phase_cases {ℓ} :
    (P : Controller → Type ℓ) (env : Environment) (c : Controller) (tf : Traceflow) (p : Phase)
    → P c
    → P (start_traceflow env c tf).0
    → P (deallocate_tag_for_tf c tf)
    → P (sync_phase env c tf p).0
unfolding sync_phase
phase_cases P env c tf unset same started freed = started
phase_cases P env c tf pending same started freed = started
phase_cases P env c tf running same started freed = check_cases P env c tf same freed
phase_cases P env c tf succeeded same started freed = same
phase_cases P env c tf failed same started freed = freed

sync_cases {ℓ} :
    (P : Controller → Type ℓ) (env : Environment) (c : Controller) (name : String)
    → P c
    → ((tf : Traceflow) → env.lister name ≡ found tf → P (start_traceflow env c tf).0)
    → ((tf : Traceflow) → env.lister name ≡ found tf → P (deallocate_tag_for_tf c tf))
    → P (sync_traceflow env c name).0
unfolding sync_traceflow
sync_cases P env c name same started freed = go (env.lister name) refl
  where
    go : (l : Lookup) → env.lister name ≡ l → P (sync_traceflow env c name).0
    go (found tf) e =
        rw (e, sync_traceflow) (phase_cases P env c tf tf.phase same (started tf e) (freed tf e))
    go not_found e = rw (e, sync_traceflow) same
    go lookup_error e = rw (e, sync_traceflow) same

-- Every sync keeps the tags within range, with one entry for a tag and one tag for a Traceflow.
pub sync_traceflow-IsValid :
    (env : Environment) (c : Controller) (name : String)
    → IsValid c
    → IsValid (sync_traceflow env c name).0
sync_traceflow-IsValid env c name v =
    sync_cases IsValid env c name v (λ tf _. start_traceflow-IsValid env c tf v)
      (λ tf _. deallocate_tag_for_tf-IsValid c tf v)

deallocate_tag_for_tf_other :
    (c : Controller) (tf : Traceflow) (j : ℕ) (n : String)
    → get c.running_traceflows j ≡ some n
    → tf.name ≢ n
    → get (deallocate_tag_for_tf c tf).running_traceflows j ≡ some n
unfolding deallocate_tag_for_tf
deallocate_tag_for_tf_other c tf j n g ne = ground (
  arith,
  get-deallocate_tag c tf.name tf.dataplane_tag j,
  ==_iff tf.dataplane_tag j,
  string_eq.beq_iff tf.name n,
)

Allocates-other :
    {c c' : Controller} {name : String} {tag : ℕ} {err : Err} (j : ℕ) (n : String)
    → Allocates c name c' tag err
    → get c.running_traceflows j ≡ some n
    → get c'.running_traceflows j ≡ some n
Allocates-other j n (already _ _ e _ _) g = rw e g
Allocates-other j n (full _ _ e _ _) g = rw e g
Allocates-other {c} {name = name} {tag = tag} j n (allocated _ _ _ free _ e _) g =
    rw e (ground (arith, get-put c.running_traceflows tag j name, ==_iff tag j))

start_traceflow_other :
    (env : Environment) (c : Controller) (tf : Traceflow) (j : ℕ) (n : String)
    → Unique c.running_traceflows
    → get c.running_traceflows j ≡ some n
    → tf.name ≢ n
    → get (start_traceflow env c tf).0.running_traceflows j ≡ some n
unfolding start_traceflow update_traceflow_status
start_traceflow_other env c tf j n u g ne = ground (
  arith,
  Allocates-other j n (allocate_tag-Allocates c tf.name u) g,
  get-deallocate_tag (allocate_tag c tf.name).0 tf.name (allocate_tag c tf.name).1 j,
  ==_iff (allocate_tag c tf.name).1 j,
  string_eq.beq_iff tf.name n,
)

-- A sync of one Traceflow never takes, frees or overwrites the tag of another.
pub sync_traceflow_other :
    (env : Environment) (c : Controller) (name : String) (j : ℕ) (n : String)
    → Unique c.running_traceflows
    → get c.running_traceflows j ≡ some n
    → ((tf : Traceflow) → env.lister name ≡ found tf → tf.name ≢ n)
    → get (sync_traceflow env c name).0.running_traceflows j ≡ some n
sync_traceflow_other env c name j n u g other =
    sync_cases (λ c'. get c'.running_traceflows j ≡ some n) env c name g
      (λ tf e. start_traceflow_other env c tf j n u g (other tf e))
      (λ tf e. deallocate_tag_for_tf_other c tf j n g (other tf e))

Allocates-err :
    {c c' : Controller} {name : String} {tag : ℕ} {err : Err} (e : Error)
    → Allocates c name c' tag err
    → err ≡ some e
    → c' ≡ c
Allocates-err e (already _ _ same _ _) h = same
Allocates-err e (full _ _ same _ _) h = same
Allocates-err e (allocated _ _ _ _ _ _ fine) h = absurd (cc)

-- If starting a Traceflow ends in an error, because all tags are taken or because the update to
-- Running failed, every tag is as it was before.
pub start_traceflow-rollback :
    (env : Environment) (c : Controller) (tf : Traceflow) (e : Error) (j : ℕ)
    → Unique c.running_traceflows
    → (start_traceflow env c tf).2 ≡ some e
    → get (start_traceflow env c tf).0.running_traceflows j ≡ get c.running_traceflows j
unfolding start_traceflow update_traceflow_status
start_traceflow-rollback env c tf e j u h = ground (
  arith,
  Allocates-err e (allocate_tag-Allocates c tf.name u),
  get-deallocate-allocate c tf.name j u,
  ==_iff (allocate_tag c tf.name).1 0,
)
