-- ===== src/Daemon/Resumed.antt =====
-- A job is resumed once.
use cuttlefish_vm.Base.{
  Bool-cases, Option-cases, Text, text_eq, text_eq_refl, text_eq-true, lookup_entry, insert_entry,
  lookup_entry-insert_entry, ◌≡◌, refl, ap, inl, inr, Bool, true, false, not, Option, none, some,
  List, [], ◌∷◌, ◌++◌, arith,
}
use cuttlefish_vm.Abi.Status.{status_eq, running, interrupted, cancelled}
use cuttlefish_vm.Host.Serde.{SerdeJson}
use cuttlefish_vm.Host.Runner.{Envelope}
use cuttlefish_vm.Daemon.Store.{
  Channels, Job, Daemon, new_job, insert_job, publish, subscribe_job, finish_job, cancel_job,
  try_start_resume,
}

module _ (s : SerdeJson) (c : Channels) where
  -- What clients, runs and other jobs do to the store between two start-ups.
  pub data Happens : Daemon s c → Daemon s c → Type 0 where
    submitted :
        (d : Daemon s c) (id : Text) (token : c.Token)
        → Happens d (
            insert_job s c
              (new_job s c id token d.net).0
              (record d { net = (new_job s c id token d.net).1 }))
    published : (d : Daemon s c) (id payload : Text) → Happens d (publish s c id payload d)
    subscribed : (d : Daemon s c) (id : Text) → Happens d (subscribe_job s c id d).1
    finished :
        (d : Daemon s c) (id : Text) (envelope : Envelope s)
        → status_eq envelope.status interrupted ≡ false
        → Happens d (finish_job s c id envelope d)
    cancels : (d : Daemon s c) (id : Text) → Happens d (cancel_job s c id d).1
    resumes : (d : Daemon s c) (id : Text) → Happens d (try_start_resume s c id d).1

  pub data Leads (d : Daemon s c) : Daemon s c → Type 0 where
    here : Leads d d
    later : {d' d'' : Daemon s c} → Leads d d' → Happens d' d'' → Leads d d''

  abbrev not_interrupted : Option (Job s c) → Bool
  not_interrupted none = false
  not_interrupted (some job) = not (status_eq job.status interrupted)

  -- The job is there, and not to be resumed.
  abbrev pub IsClaimed : Text → Daemon s c → Type 0
  IsClaimed id d = not_interrupted (lookup_entry id d.jobs) ≡ true

  insert-IsClaimed :
      (id k : Text) (job : Job s c) (jobs : List (Text × Job s c))
      → (text_eq k id ≡ true → not (status_eq job.status interrupted) ≡ true)
      → not_interrupted (lookup_entry id jobs) ≡ true
      → not_interrupted (lookup_entry id (insert_entry k job jobs)) ≡ true
  insert-IsClaimed id k job jobs fine h = ground (arith, lookup_entry-insert_entry id k job jobs)

  -- A job that keeps its status.
  same_status :
      (id k : Text) (old job : Job s c) (jobs : List (Text × Job s c))
      → lookup_entry k jobs ≡ some old
      → job.status ≡ old.status
      → not_interrupted (lookup_entry id jobs) ≡ true
      → not_interrupted (lookup_entry id (insert_entry k job jobs)) ≡ true
  same_status id k old job jobs e same h =
      ground (arith, lookup_entry-insert_entry id k job jobs, text_eq-true k id)

  Happens-IsClaimed :
      (id : Text) {d d' : Daemon s c} → Happens d d' → IsClaimed id d → IsClaimed id d'
  unfolding insert_job new_job publish subscribe_job finish_job cancel_job try_start_resume
  Happens-IsClaimed id (submitted d k token) h =
      insert-IsClaimed id k (new_job s c k token d.net).0 d.jobs (λ e. unfold status_eq in refl) h
  Happens-IsClaimed id (published d k payload) h = elim (Option-cases (lookup_entry k d.jobs)) [
    | inl e ↦ rw (e, publish) h
    | inr (job, e) ↦
        rw (e, publish)
          (same_status id k job (record job { log = job.log ++ payload ∷ [] }) d.jobs e refl h)
  ]
  Happens-IsClaimed id (subscribed d k) h = elim (Option-cases (lookup_entry k d.jobs)) [
    | inl e ↦ rw (e, subscribe_job) h
    | inr (job, e) ↦ rw (e, subscribe_job) h
  ]
  Happens-IsClaimed id (finished d k envelope fine) h =
      elim (Option-cases (lookup_entry k d.jobs)) [
        | inl e ↦ rw (e, finish_job) h
        | inr (job, e) ↦
            rw (e, finish_job)
              (insert-IsClaimed id k
                (record job { status = envelope.status; envelope = some envelope }) d.jobs
                (λ same. ap not fine) h)
      ]
  Happens-IsClaimed id (cancels d k) h = elim (Option-cases (lookup_entry k d.jobs)) [
    | inl e ↦ rw (e, cancel_job) h
    | inr (job, e) ↦
        rw (e, cancel_job)
          (elim (Bool-cases (status_eq job.status interrupted)) [
            | inl was ↦ rw was (
                insert-IsClaimed id k (record job { status = cancelled }) d.jobs
                  (λ same. unfold status_eq in refl) h)
            | inr was ↦ rw was h
          ])
  ]
  Happens-IsClaimed id (resumes d k) h = elim (Option-cases (lookup_entry k d.jobs)) [
    | inl e ↦ rw (e, try_start_resume) h
    | inr (job, e) ↦
        rw (e, try_start_resume)
          (elim (Bool-cases (status_eq job.status interrupted)) [
            | inl was ↦ rw was (
                insert-IsClaimed id k (record job { status = running }) d.jobs
                  (λ same. unfold status_eq in refl) h)
            | inr was ↦ rw was h
          ])
  ]

  Leads-IsClaimed : (id : Text) {d d' : Daemon s c} → IsClaimed id d → Leads d d' → IsClaimed id d'
  Leads-IsClaimed id h here = h
  Leads-IsClaimed id h (later r st) = Happens-IsClaimed id st (Leads-IsClaimed id h r)

  claims :
      (id : Text) (d : Daemon s c) (job : Job s c)
      → (try_start_resume s c id d).0 ≡ some job
      → IsClaimed id (try_start_resume s c id d).1
  unfolding try_start_resume
  claims id d job h = elim (Option-cases (lookup_entry id d.jobs)) [
    | inl e ↦ absurd (lost e)
    | inr (old, e) ↦
        rw (e, try_start_resume)
          (elim (Bool-cases (status_eq old.status interrupted)) [
            | inl was ↦ rw was (
                rw (lookup_entry-insert_entry id id (record old { status = running }) d.jobs)
                  (rw (text_eq_refl id) (unfold status_eq in refl)))
            | inr was ↦ absurd (held old e was)
          ])
  ]
    where
      lost : lookup_entry id d.jobs ≡ none → ⊥
      lost e = ground arith

      held :
          (old : Job s c)
          → lookup_entry id d.jobs ≡ some old
          → status_eq old.status interrupted ≡ false
          → ⊥
      held old e was = ground arith

  refuses : (id : Text) (d : Daemon s c) → IsClaimed id d → try_start_resume s c id d ≡ (none, d)
  unfolding try_start_resume
  refuses id d h = ground arith

  -- Behind a resume that won its job, whatever submissions, events, subscriptions, cancellations,
  -- resumes and ends of runs follow, no resume of that job wins again, as long as no run ends as
  -- interrupted.
  pub resume_once :
      (id : Text) (d d' : Daemon s c) (job : Job s c)
      → (try_start_resume s c id d).0 ≡ some job
      → Leads (try_start_resume s c id d).1 d'
      → try_start_resume s c id d' ≡ (none, d')
  resume_once id d d' job won r = refuses id d' (Leads-IsClaimed id (claims id d job won) r)
