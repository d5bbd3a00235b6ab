-- ===== src/Documents/Store/Access.antt =====
-- Who may retrieve a chunk (`_is_accessible`, `list_published_chunks`), and what a write of the
-- lifecycle does to that.
use semiconductor_agent_know.Base.{
  ℕ, ◌≤◌, ◌<◌, String, ◌≡◌, ◌≢◌, refl, ◌↔◌, ◌⊎◌, true, false, Option, none, some, List, [], ◌∷◌,
  arith, given, contains, is_empty, In, In-filter, In-filter_intro, here, there, string_eq,
}
use semiconductor_agent_know.Base.Dict.{Dict, values, map_values}
use semiconductor_agent_know.Documents.Kinds.{
  ApprovalStatus, DocumentLifecycle, approval_eq, lifecycle_eq,
}
use semiconductor_agent_know.Documents.Model.{ActorScope, Chunk, DocumentRevision}
use semiconductor_agent_know.Documents.Store.{
  Store, is_accessible, list_published_chunks, holds, expired_by, belongs, set_chunk, set_revision,
}

-- One of the actor's filters lets a value through.
abbrev pub Within : List String → Option String → Type 0
Within allowed value =
    (given value ≡ false) ⊎ (is_empty allowed ≡ true) ⊎ (holds allowed value ≡ true)

abbrev pub NotExpired : ℕ → Option ℕ → Type 0
NotExpired now none = Unit
NotExpired now (some t) = now < t

-- What the access policy asks, as a statement with no order of tests.
pub record Retrievable (c : Chunk) (actor : ActorScope) (now : ℕ) : Type 0 where
  pub published : c.lifecycle ≡ DocumentLifecycle.published
  pub approved : c.approval_status ≡ ApprovalStatus.approved
  pub effective : c.effective_at ≤ now
  pub current : NotExpired now c.expires_at
  pub permitted :
      (contains actor.roles "admin" ≡ true)
      ⊎ ((holds actor.access_scope_keys c.access_scope_key ≡ true)
          × Within actor.fabs c.fab
          × Within actor.products c.product
          × Within actor.tool_ids c.tool_id)

pub expired_by-NotExpired : (now : ℕ) (t : Option ℕ) → expired_by now t ≡ false → NotExpired now t
expired_by-NotExpired now none h = tt
expired_by-NotExpired now (some t) h = ground arith

pub NotExpired-expired_by : (now : ℕ) (t : Option ℕ) → NotExpired now t → expired_by now t ≡ false
NotExpired-expired_by now none h = refl
NotExpired-expired_by now (some t) h = ground arith

pub is_accessible→Retrievable :
    (c : Chunk) (actor : ActorScope) (now : ℕ)
    → is_accessible c actor now ≡ true
    → Retrievable c actor now
unfolding is_accessible
is_accessible→Retrievable c actor now h = record {
  published = ground arith;
  approved = ground arith;
  effective = ground arith;
  current = expired_by-NotExpired now c.expires_at (ground arith);
  permitted = ground arith;
}

pub Retrievable→is_accessible :
    (c : Chunk) (actor : ActorScope) (now : ℕ)
    → Retrievable c actor now
    → is_accessible c actor now ≡ true
unfolding is_accessible
Retrievable→is_accessible c actor now r =
    ground (arith, NotExpired-expired_by now c.expires_at r.current)

-- The retrieval list holds a chunk exactly when the store holds it and the chunk is published,
-- approved, in effect, not expired, and permitted to the actor: to an admin, or by its access scope
-- key and each of the actor's fab, product and tool filters.
pub In-list_published_chunks :
    (s : Store) (actor : ActorScope) (now : ℕ) (c : Chunk)
    → In c (list_published_chunks s actor now) ↔ (In c (values s.chunks) × Retrievable c actor now)
unfolding list_published_chunks
In-list_published_chunks s actor now c = (
  λ m.
      let (p, q) = In-filter (λ c. is_accessible c actor now) (values s.chunks) m in
      (p, is_accessible→Retrievable c actor now q),
  λ h.
      In-filter_intro (λ c. is_accessible c actor now) (values s.chunks) h.0
        (Retrievable→is_accessible c actor now h.1),
)

-- A chunk that is still published after the write is of another revision.
set_chunk_hides :
    (d r : String) (l : DocumentLifecycle) (c : Chunk)
    → l ≢ DocumentLifecycle.published
    → (set_chunk d r l c).lifecycle ≡ DocumentLifecycle.published
    → belongs d r (set_chunk d r l c).document_id (set_chunk d r l c).revision ≡ false
set_chunk_hides d r l c h p = ground arith

pub In-map_values {ℓ κ} :
    {K : Type ℓ} {V : Type κ} (f : V → V) {v : V} (m : Dict K V)
    → In v (values (map_values f m))
    → (u : V) × In u (values m) × (v ≡ f u)
In-map_values f [] h = elim h [ ]
In-map_values f ((k, w) ∷ m) here = (w, here, refl)
In-map_values f ((k, w) ∷ m) (there h) = let (u, p, q) = In-map_values f m h in (u, there p, q)

-- Once a revision has been given a lifecycle other than published, no chunk of it is retrievable,
-- for any actor, admins included, at any time.
pub set_revision_hides :
    (s : Store) (doc : DocumentRevision) (d r : String) (l : DocumentLifecycle) (actor : ActorScope)
    (now : ℕ) (c : Chunk)
    → l ≢ DocumentLifecycle.published
    → In c (list_published_chunks (set_revision d r doc l s) actor now)
    → belongs d r c.document_id c.revision ≡ false
unfolding set_revision
set_revision_hides s doc d r l actor now c h m =
    let (k, q) = (In-list_published_chunks (set_revision d r doc l s) actor now c).0 m in
    let (u, p, e) = In-map_values (set_chunk d r l) s.chunks k in
    rw e (set_chunk_hides d r l u h (rw e at q.published))

-- No chunk of the revision is retrievable, for anybody, at any time.
abbrev pub Hidden : String → String → Store → Type 0
Hidden d r s =
    (actor : ActorScope) (now : ℕ) (c : Chunk)
    → In c (list_published_chunks s actor now)
    → belongs d r c.document_id c.revision ≡ false
