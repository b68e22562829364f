-- ===== src/Http/Group/Members.antt =====
-- Who is a member of a group after a join, and after the entry of a group was replaced.
use socker.Prelude.{
  ℕ, ◌≡◌, refl, sym, ◌⊎◌, inl, inr, true, false, List, [], ◌∷◌, ◌==◌, nat_eq, Bool-cases, Has, ltb,
  is_empty,
}
use socker.Text.{Text, text_eq}
use socker.Assoc.{put, get-put}
use socker.Http.Registrar.{emplace}
use socker.Http.Group.{Clients, members, join}

Has-emplace : (x c : ℕ) (cs : List ℕ) → Has x (emplace ltb c cs).0 → (x ≡ c) ⊎ Has x cs
unfolding emplace
Has-emplace x c [] h = h
Has-emplace x c (d ∷ ds) h = elim (Bool-cases (ltb d c)) [
  | inl e ↦ elim (rw e at h) [
    | inl same ↦ inr (inl same)
    | inr has ↦ elim (Has-emplace x c ds has) [ inl same ↦ inl same | inr old ↦ inr (inr old) ]
  ]
  | inr e ↦ elim (Bool-cases (ltb c d)) [
    | inl k ↦ rw k at (rw e at h)
    | inr k ↦ inr (rw k at (rw e at h))
  ]
]

-- a member after the entry of one group was replaced
pub Has-put :
    (x : ℕ) (g group : Text) (cs : List ℕ) (clients : Clients)
    → Has x (members g (put group cs clients))
    → ((g ≡ group) × Has x cs) ⊎ Has x (members g clients)
Has-put x g group cs clients h = elim (Bool-cases (group == g)) [
  | inl same ↦
      inl
        (sym ((text_eq.beq_iff group g).0 same), rw same at (rw (get-put group g cs clients) at h))
  | inr other ↦ inr (rw other at (rw (get-put group g cs clients) at h))
]

join-empty :
    (stream : ℕ) (group : Text) (clients : Clients)
    → is_empty group ≡ true
    → join stream group clients ≡ clients
unfolding join
join-empty stream group clients e = rw e refl

join-filled :
    (stream : ℕ) (group : Text) (clients : Clients)
    → is_empty group ≡ false
    → join stream group clients ≡ put group (emplace ltb stream (members group clients)).0 clients
unfolding join
join-filled stream group clients e = rw e refl

pub Has-join :
    (x stream : ℕ) (g group : Text) (clients : Clients)
    → Has x (members g (join stream group clients))
    → ((x ≡ stream) × (g ≡ group)) ⊎ Has x (members g clients)
Has-join x stream g group clients h = elim (Bool-cases (is_empty group)) [
  | inl e ↦ inr (rw (join-empty stream group clients e) at h)
  | inr e ↦ elim (Has-put x g group _ clients (rw (join-filled stream group clients e) at h)) [
    | inr old ↦ inr old
    | inl (same, has) ↦ elim (Has-emplace x stream (members group clients) has) [
      | inl new ↦ inl (new, same)
      | inr old ↦ inr (rw same old)
    ]
  ]
]
