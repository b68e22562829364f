-- ===== src/Manager/Reached.antt =====
-- The states that a manager comes to by its operations.
use socker.Prelude.{
  ℕ, ◌≢◌, ◌⊎◌, inl, inr, none, some, List, arith, Eq, ◌==◌, nat_eq, Bool-cases, Has,
}
use socker.Text.{text_eq}
use socker.Assoc
use socker.Assoc.{get-erase}
use socker.Manager.{
  Members, id_and_code, id_only, code_only, Objects, AbstractManager, empty_manager, remove, add,
  rmv, clear, list,
}
use socker.Manager.Consistency.{
  Has-remove, Indexes, IsConsistent, IsNew, add-IsConsistent, rmv-IsConsistent,
}

Indexes-erase_new {ℓ} :
    {K : Type ℓ} ⦃e : Eq K⦄ (key : ℕ → K) (m : Assoc.Assoc K ℕ) (ps : List ℕ) (t : ℕ)
    → Indexes key m ps
    → ((p : ℕ) → Has p ps → key p ≢ key t)
    → Indexes key (Assoc.erase (key t) m) (remove t ps)
Indexes-erase_new ⦃e⦄ key m ps t ix fresh k p =
    let (found, listed) = ix k p in
    let (to, from) = Has-remove p t ps in
    elim (Bool-cases (key t == k)) [
      | inl same ↦ rw (get-erase (key t) k m) (
          rw same (
            (λ h. ground arith),
            (λ h. absurd (fresh p (to h.0).0 (ground (arith, e.beq_iff (key t) k)))),
          ))
      | inr other ↦ rw (get-erase (key t) k m) (
          rw other (
            (λ h. (
              from ((found h).0, (λ z. ground (arith, e.beq_iff (key t) k, (found h).1))),
              (found h).1,
            )),
            (λ h. listed ((to h.0).0, h.1)),
          ))
    ]

module _ (objects : Objects) (members : Members) where
  -- What a manager can become: an object that is added has new keys, as the assertions of add say,
  -- and one that is removed is managed, or has no key of one that is.
  pub data Reached : AbstractManager → Type 0 where
    made : Reached empty_manager
    added :
        {m : AbstractManager}
        → (t : ℕ) → IsNew objects members t m
        → Reached m
        → Reached (add objects members (some t) m)
    added_null : {m : AbstractManager} → Reached m → Reached (add objects members none m)
    removed :
        {m : AbstractManager}
        → (t : ℕ) → Has t (list m) ⊎ IsNew objects members t m
        → Reached m
        → Reached (rmv objects members (some t) m)
    removed_null : {m : AbstractManager} → Reached m → Reached (rmv objects members none m)
    cleared : {m : AbstractManager} → Reached m → Reached (clear m)

rmv_new-IsConsistent :
    (objects : Objects) (members : Members) (t : ℕ) (m : AbstractManager)
    → IsConsistent objects members m
    → IsNew objects members t m
    → IsConsistent objects members (rmv objects members (some t) m)
unfolding rmv
rmv_new-IsConsistent objects id_and_code t m ok new = (
  Indexes-erase_new objects.id m.id_to_ptrs m.ptrs t ok.0 (λ p h. (new p h).0),
  Indexes-erase_new objects.code m.code_to_ptrs m.ptrs t ok.1 (λ p h. (new p h).1),
)
rmv_new-IsConsistent objects id_only t m ok new =
    Indexes-erase_new objects.id m.id_to_ptrs m.ptrs t ok new
rmv_new-IsConsistent objects code_only t m ok new =
    Indexes-erase_new objects.code m.code_to_ptrs m.ptrs t ok new

empty_manager-IsConsistent :
    (objects : Objects) (members : Members) → IsConsistent objects members empty_manager
unfolding Assoc.get
empty_manager-IsConsistent objects id_and_code =
    ((λ k p. (λ h. absurd cc, λ h. absurd h.0)), (λ k p. (λ h. absurd cc, λ h. absurd h.0)))
empty_manager-IsConsistent objects id_only = λ k p. (λ h. absurd cc, λ h. absurd h.0)
empty_manager-IsConsistent objects code_only = λ k p. (λ h. absurd cc, λ h. absurd h.0)

-- In every state that a manager comes to by add, rmv and clear, when objects that are added have new
-- keys, and those that are removed are managed or have no key of a managed one: the maps find just
-- the managed objects, by their id and code. So it is for types with an id, with a code and with
-- both.
pub Reached-IsConsistent :
    (objects : Objects) (members : Members) (m : AbstractManager)
    → Reached objects members m
    → IsConsistent objects members m
unfolding add rmv clear
Reached-IsConsistent objects members _ made = empty_manager-IsConsistent objects members
Reached-IsConsistent objects members _ (added {m} t new r) =
    add-IsConsistent objects members t m (Reached-IsConsistent objects members m r) new
Reached-IsConsistent objects members _ (added_null {m} r) = Reached-IsConsistent objects members m r
Reached-IsConsistent objects members _ (removed {m} t (inl has) r) =
    (rmv-IsConsistent objects members t m (Reached-IsConsistent objects members m r) has).0
Reached-IsConsistent objects members _ (removed {m} t (inr new) r) =
    rmv_new-IsConsistent objects members t m (Reached-IsConsistent objects members m r) new
Reached-IsConsistent objects members _ (removed_null {m} r) =
    Reached-IsConsistent objects members m r
Reached-IsConsistent objects members _ (cleared {m} r) = empty_manager-IsConsistent objects members
