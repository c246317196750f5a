-- ===== src/Sessions/Service/Valid.antt =====
-- The invariant of the session table of session_manager.py.
use gemini_web_mcp.Common.{
  ℕ, ◌<◌, String, false, ◌≡◌, ◌≢◌, refl, sym, ap, ◌∙◌, none, some, List, [], ◌∷◌, ◌==◌, eq_iff,
  Dict, lookup, insert, erase, All, All-append, arith, lookup-insert, lookup-erase, Bool-cases, inl,
  inr,
}
use gemini_web_mcp.Domain.Conversations.{SessionLifecycleState}
use gemini_web_mcp.Sessions.State.{SessionState, Ref, Heap, SessionService}
use gemini_web_mcp.Sessions.Service.{
  set_lifecycle, set_lifecycles, kept, gone, clean_expired_sessions, values, is_expired,
}

-- An entry of the table: an object made before, under its own id, active and authenticated.
pub record IsLive (heap : Heap) (next : ℕ) (sid : String) (r : Ref) : Type 0 where
  pub made : r < next
  pub named : (heap r).session_id ≡ sid
  pub active : (heap r).lifecycle_state ≡ SessionLifecycleState.active
  pub authenticated : (heap r).authentication_invalidated ≡ false

-- An object on the expired list.
pub record IsGone (heap : Heap) (next : ℕ) (r : Ref) : Type 0 where
  pub made : r < next
  pub expired : (heap r).lifecycle_state ≡ SessionLifecycleState.expired
  pub authenticated : (heap r).authentication_invalidated ≡ false

-- Every entry is live, and no id has two entries.
abbrev pub Table : Heap → ℕ → Dict Ref → Type 0
Table heap next [] = Unit
Table heap next ((sid, r) ∷ rest) =
    IsLive heap next sid r × (lookup sid rest ≡ none) × Table heap next rest

pub record IsValid (s : SessionService) : Type 0 where
  pub table : Table s.heap s.next s.sessions
  pub expired : All (IsGone s.heap s.next) s.expired_sessions

-- What is found in the table is live.
pub Table-lookup :
    {heap : Heap} {next : ℕ} (sid : String) (r : Ref) (d : Dict Ref)
    → Table heap next d
    → lookup sid d ≡ some r
    → IsLive heap next sid r
unfolding lookup
Table-lookup sid r [] t h = cc
Table-lookup sid r ((j, q) ∷ d) t h = ground (arith, eq_iff j sid, Table-lookup sid r d t.2)

-- Entries that stay live through a change make a table again.
pub Table-map :
    {g h : Heap} {m n : ℕ} (d : Dict Ref)
    → ((j : String) (q : Ref) → IsLive g m j q → IsLive h n j q)
    → Table g m d
    → Table h n d
Table-map [] f t = tt
Table-map ((j, q) ∷ d) f t = (f j q t.0, t.1, Table-map d f t.2)

lookup-erase-none :
    (sid j : String) (d : Dict Ref) → lookup j d ≡ none → lookup j (erase sid d) ≡ none
lookup-erase-none sid j d h = ground (arith, lookup-erase sid j d)

-- The same for a table that has lost one id: only the entries of other ids have to stay live.
pub Table-erase :
    {g h : Heap} {m n : ℕ} (sid : String) (d : Dict Ref)
    → ((j : String) (q : Ref) → IsLive g m j q → j ≢ sid → IsLive h n j q)
    → Table g m d
    → Table h n (erase sid d)
unfolding erase
Table-erase sid [] f t = tt
Table-erase sid ((j, q) ∷ d) f t = elim (Bool-cases (j == sid)) [
  | inl e ↦ rw e (Table-erase sid d f t.2)
  | inr e ↦ rw e (
    f j q t.0 (λ p. cc ((eq_iff j sid).1 p)),
    lookup-erase-none sid j d t.1,
    Table-erase sid d f t.2,
  )
]

-- An id gets a live object.
pub Table-insert :
    {h : Heap} {n : ℕ} (sid : String) (r : Ref) (d : Dict Ref)
    → IsLive h n sid r
    → Table h n d
    → Table h n (insert sid r d)
unfolding insert
Table-insert sid r [] live t = (live, unfold lookup in refl, tt)
Table-insert sid r ((j, q) ∷ d) live t = elim (Bool-cases (j == sid)) [
  | inl e ↦ rw e (live, rw (← (eq_iff j sid).0 e) t.1, t.2)
  | inr e ↦ rw e (
    t.0,
    ground (arith, lookup-insert sid j r d, eq_iff sid j, eq_iff j sid, t.1),
    Table-insert sid r d live t.2,
  )
]

module _ (state : SessionLifecycleState) where
  -- What marking leaves alone, and that it does not undo itself.
  pub set_lifecycles-keeps :
      (refs : List Ref) (heap : Heap) (r : Ref)
      → ((set_lifecycles state refs heap r).session_id ≡ (heap r).session_id)
        × ((set_lifecycles state refs heap r).authentication_invalidated
            ≡ (heap r).authentication_invalidated)
        × ((heap r).lifecycle_state ≡ state
            → (set_lifecycles state refs heap r).lifecycle_state ≡ state)
  unfolding set_lifecycles
  set_lifecycles-keeps [] heap r = (refl, refl, λ e. e)
  set_lifecycles-keeps (q ∷ refs) heap r =
      let ih = set_lifecycles-keeps refs (set_lifecycle state q heap) r in
      (ground (arith, ih.0), ground (arith, ih.1), λ e. ih.2 (ground arith))

  set_lifecycles-sets :
      (refs : List Ref) (heap : Heap)
      → All (λ q. (set_lifecycles state refs heap q).lifecycle_state ≡ state) refs
  unfolding set_lifecycles
  set_lifecycles-sets [] heap = tt
  set_lifecycles-sets (q ∷ refs) heap = (
    (set_lifecycles-keeps refs (set_lifecycle state q heap) q).2 (ground arith),
    set_lifecycles-sets refs (set_lifecycle state q heap),
  )

  pub set_lifecycles-other :
      (refs : List Ref) (heap : Heap) (r : Ref)
      → All (λ q. q ≢ r) refs
      → set_lifecycles state refs heap r ≡ heap r
  unfolding set_lifecycles
  set_lifecycles-other [] heap r h = refl
  set_lifecycles-other (q ∷ refs) heap r h =
      set_lifecycles-other refs (set_lifecycle state q heap) r h.1 ∙ ground (arith, h.0)

module _ (now age : ℕ) (heap : Heap) where
  lookup-kept :
      (sid : String) (d : Dict Ref) → lookup sid d ≡ none → lookup sid (kept now age heap d) ≡ none
  unfolding lookup kept
  lookup-kept sid [] h = refl
  lookup-kept sid ((j, q) ∷ d) h = ground (arith, lookup-kept sid d)

  -- Who stays is not among those who go.
  gone-ne :
      (r : Ref) (d : Dict Ref)
      → is_expired now age (heap r) ≡ false
      → All (λ q. q ≢ r) (gone now age heap d)
  unfolding gone
  gone-ne r [] h = tt
  gone-ne r ((j, q) ∷ d) h = elim (Bool-cases (is_expired now age (heap q))) [
    | inl e ↦ rw e ((λ p. cc (ap (λ x. is_expired now age (heap x)) p)), gone-ne r d h)
    | inr e ↦ rw e (gone-ne r d h)
  ]

  IsLive-same :
      (n : ℕ) (marked : Heap) (j : String) (q : Ref)
      → marked q ≡ heap q
      → IsLive heap n j q
      → IsLive marked n j q
  IsLive-same n marked j q p live = record {
    made = live.made;
    named = ap (λ (x : SessionState). x.session_id) p ∙ live.named;
    active = ap (λ (x : SessionState). x.lifecycle_state) p ∙ live.active;
    authenticated = ap (λ (x : SessionState). x.authentication_invalidated) p ∙ live.authenticated;
  }

  -- The heap after the expired objects are marked.
  module _ (marked : Heap)
      (same : (r : Ref) → is_expired now age (heap r) ≡ false → marked r ≡ heap r) where
    Table-kept : (n : ℕ) (d : Dict Ref) → Table heap n d → Table marked n (kept now age heap d)
    unfolding kept
    Table-kept n [] t = tt
    Table-kept n ((j, q) ∷ d) t = elim (Bool-cases (is_expired now age (heap q))) [
      | inl e ↦ rw e (Table-kept n d t.2)
      | inr e ↦
          rw e (IsLive-same n marked j q (same q e) t.0, lookup-kept j d t.1, Table-kept n d t.2)
    ]

  -- What is known of those who go.
  gone-made :
      (n : ℕ) (d : Dict Ref)
      → Table heap n d
      → All (λ q. (q < n) × ((heap q).authentication_invalidated ≡ false)) (gone now age heap d)
  unfolding gone
  gone-made n [] t = tt
  gone-made n ((j, q) ∷ d) t = elim (Bool-cases (is_expired now age (heap q))) [
    | inl e ↦ rw e ((t.0.made, t.0.authenticated), gone-made n d t.2)
    | inr e ↦ rw e (gone-made n d t.2)
  ]

-- The pieces of `IsGone`, item by item.
All-IsGone :
    (g h : Heap) (n : ℕ) (refs : List Ref)
    → ((q : Ref) → (h q).authentication_invalidated ≡ (g q).authentication_invalidated)
    → All (λ q. (q < n) × ((g q).authentication_invalidated ≡ false)) refs
    → All (λ q. (h q).lifecycle_state ≡ SessionLifecycleState.expired) refs
    → All (IsGone h n) refs
All-IsGone g h n [] same made marked = tt
All-IsGone g h n (q ∷ refs) same made marked = (
  record { made = made.0.0; expired = marked.0; authenticated = same q ∙ made.0.1 },
  All-IsGone g h n refs same made.1 marked.1,
)

pub All-map {ℓ κ μ} :
    {A : Type ℓ} {P : A → Type κ} {Q : A → Type μ} (xs : List A)
    → ((x : A) → P x → Q x)
    → All P xs
    → All Q xs
All-map [] f h = tt
All-map (x ∷ xs) f h = (f x h.0, All-map xs f h.1)

-- Cleaning keeps the invariant.
pub clean-IsValid :
    (now : ℕ) (s : SessionService) → IsValid s → IsValid (clean_expired_sessions now s)
unfolding clean_expired_sessions
clean-IsValid now s v =
    let refs = gone now s.max_age s.heap s.sessions in
    let marked = set_lifecycles SessionLifecycleState.expired refs s.heap in
    let keeps = set_lifecycles-keeps SessionLifecycleState.expired refs s.heap in
    record {
      table =
          Table-kept now s.max_age s.heap marked
            (λ r e.
              set_lifecycles-other SessionLifecycleState.expired refs s.heap r
                (gone-ne now s.max_age s.heap r s.sessions e))
            s.next s.sessions v.table;
      expired =
          All-append (IsGone marked s.next) s.expired_sessions refs
            (All-map s.expired_sessions
              (λ q g. record {
                made = g.made;
                expired = (keeps q).2 g.expired;
                authenticated = (keeps q).1 ∙ g.authenticated;
              })
              v.expired)
            (All-IsGone s.heap marked s.next refs (λ q. (keeps q).1)
              (gone-made now s.max_age s.heap s.next s.sessions v.table)
              (set_lifecycles-sets SessionLifecycleState.expired refs s.heap));
    }

-- No object of the table is on the expired list.
pub values-ne :
    (h : Heap) (n : ℕ) (q : Ref) (d : Dict Ref)
    → Table h n d
    → (h q).lifecycle_state ≡ SessionLifecycleState.expired
    → All (λ p. p ≢ q) (values d)
unfolding values
values-ne h n q [] t e = tt
values-ne h n q ((j, r) ∷ d) t e =
    ((λ p. cc (sym t.0.active ∙ ap (λ x. (h x).lifecycle_state) p ∙ e)), values-ne h n q d t.2 e)
