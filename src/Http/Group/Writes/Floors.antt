-- ===== src/Http/Group/Writes/Floors.antt =====
-- When all messages stay in their group, and that it stays so when a conversation moves on.
use socker.Prelude.{
  ℕ, ◌≡◌, refl, sym, ◌∙◌, ◌≢◌, ◌⊎◌, inl, inr, Option, none, some, List, [], ◌∷◌, ◌++◌, append-nil,
  arith, ◌==◌, nat_eq, Bool-cases, All, All-append, Has,
}
use mathlib.Core.Option
use socker.Text.{Text, text_eq}
use socker.Assoc.{Assoc, get, put, get-put, get-put_self}
use socker.Http.Group.{Clients, Delivered, members}
use socker.Http.Group.Writes.{Phase, reading, writing, returned, Talker, Floor}

abbrev pub group_in : ℕ → Assoc ℕ Talker → Option Text
group_in x talkers = Option.map (λ t. t.group) (get x talkers)

-- the group of a stream, if it was accepted
abbrev pub group_of : ℕ → Floor → Option Text
group_of x floor = group_in x floor.talkers

-- the message went from a stream to another one of its group
abbrev pub IsLocal : Floor → ℕ × Delivered → Type 0
IsLocal floor (from, d) =
    (g : Text) × (group_of from floor ≡ some g) × (group_of d.to floor ≡ some g) × (d.to ≢ from)

-- who is still to be written to is of this group
abbrev pub IsBound : Floor → Text → Phase → Type 0
IsBound floor g reading = Unit
IsBound floor g (writing to rest closed msg as_text) = All (λ x. group_of x floor ≡ some g) rest
IsBound floor g returned = Unit

-- The members of a group, and those that its multicasts are still to write to, are streams that were
-- accepted for it, and no message left its group.
pub record IsInside (floor : Floor) : Type 0 where
  pub member : (x : ℕ) (g : Text) → Has x (members g floor.clients) → group_of x floor ≡ some g
  pub bound : (s : ℕ) (t : Talker) → get s floor.talkers ≡ some t → IsBound floor t.group t.phase
  pub local : All (IsLocal floor) floor.sent

abbrev pub Extends : Floor → Floor → Type 0
Extends new old = (x : ℕ) (g : Text) → group_of x old ≡ some g → group_of x new ≡ some g

IsLocal-Extends :
    (new old : Floor) (ms : List (ℕ × Delivered))
    → Extends new old
    → All (IsLocal old) ms
    → All (IsLocal new) ms
IsLocal-Extends new old [] ext h = tt
IsLocal-Extends new old ((from, d) ∷ ms) ext ((g, a, b, other), h) =
    ((g, ext from g a, ext d.to g b, other), IsLocal-Extends new old ms ext h)

All-Extends :
    (new old : Floor) (g : Text) (xs : List ℕ)
    → Extends new old
    → All (λ x. group_of x old ≡ some g) xs
    → All (λ x. group_of x new ≡ some g) xs
All-Extends new old g [] ext h = tt
All-Extends new old g (x ∷ xs) ext (h, hs) = (ext x g h, All-Extends new old g xs ext hs)

IsBound-Extends :
    (new old : Floor) (g : Text) (p : Phase) → Extends new old → IsBound old g p → IsBound new g p
IsBound-Extends new old g reading ext h = tt
IsBound-Extends new old g (writing to rest closed msg as_text) ext h =
    All-Extends new old g rest ext h
IsBound-Extends new old g returned ext h = tt

-- the talker of a stream is replaced by one of the same group
group_in-put :
    (stream x : ℕ) (g : Text) (t : Talker) (m : Assoc ℕ Talker)
    → (group_in stream m ≡ none) ⊎ (group_in stream m ≡ some t.group)
    → group_in x m ≡ some g
    → group_in x (put stream t m) ≡ some g
group_in-put stream x g t m fits h = elim (Bool-cases (stream == x)) [
  | inr other ↦ rw (get-put stream x t m) (rw other h)
  | inl same ↦
      let taken : group_in stream m ≡ some g = rw ((nat_eq.beq_iff stream x).0 same) h in
      rw (get-put stream x t m)
        (rw same (elim fits [ inl none' ↦ absurd cc | inr f ↦ sym f ∙ taken ]))
]

-- a talker that is there is the one that was put, or an old one
pub found-put :
    (stream s : ℕ) (t u : Talker) (m : Assoc ℕ Talker)
    → get s (put stream t m) ≡ some u
    → (u ≡ t) ⊎ (get s m ≡ some u)
found-put stream s t u m h = elim (Bool-cases (stream == s)) [
  | inl same ↦ inl (ground (arith, rw same at (rw (get-put stream s t m) at h)))
  | inr other ↦ inr (rw other at (rw (get-put stream s t m) at h))
]

abbrev pub changed : ℕ → Talker → Clients → List (ℕ × Delivered) → Floor → Floor
changed stream t clients ms floor = record {
  clients = clients;
  talkers = put stream t floor.talkers;
  sent = floor.sent ++ ms;
}

-- a floor with other clients, another talker and more messages is as good, if these are
pub changed-IsInside :
    (stream : ℕ) (t : Talker) (clients : Clients) (ms : List (ℕ × Delivered)) (floor : Floor)
    → (group_of stream floor ≡ none) ⊎ (group_of stream floor ≡ some t.group)
    → ((x : ℕ) (g : Text)
        → Has x (members g clients)
        → ((x ≡ stream) × (g ≡ t.group)) ⊎ (group_of x floor ≡ some g))
    → IsBound floor t.group t.phase
    → All (IsLocal floor) ms
    → IsInside floor
    → IsInside (changed stream t clients ms floor)
changed-IsInside stream t clients ms floor fits member bound locals ok =
    let new = changed stream t clients ms floor in
    let ext : Extends new floor = λ x g. group_in-put stream x g t floor.talkers fits in
    record {
      member = λ x g h. elim (member x g h) [
        | inl (same, its) ↦ rw same (rw its (rw (get-put_self stream t floor.talkers) refl))
        | inr old ↦ ext x g old
      ];
      bound = λ s u h. elim (found-put stream s t u floor.talkers h) [
        | inl same ↦ rw same (IsBound-Extends new floor t.group t.phase ext bound)
        | inr old ↦ IsBound-Extends new floor u.group u.phase ext (ok.bound s u old)
      ];
      local =
          All-append (IsLocal new) floor.sent ms (IsLocal-Extends new floor floor.sent ext ok.local)
            (IsLocal-Extends new floor ms ext locals);
    }

-- the same without messages
pub rephased-IsInside :
    (stream : ℕ) (t : Talker) (clients : Clients) (floor : Floor)
    → (group_of stream floor ≡ none) ⊎ (group_of stream floor ≡ some t.group)
    → ((x : ℕ) (g : Text)
        → Has x (members g clients)
        → ((x ≡ stream) × (g ≡ t.group)) ⊎ (group_of x floor ≡ some g))
    → IsBound floor t.group t.phase
    → IsInside floor
    → IsInside (record floor { clients = clients; talkers = put stream t floor.talkers })
rephased-IsInside stream t clients floor fits member bound ok =
    rw (append-nil floor.sent) at
      (changed-IsInside stream t clients [] floor fits member bound tt ok)
