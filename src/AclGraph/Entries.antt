-- ===== src/AclGraph/Entries.antt =====
-- vllm_ascend/compilation/acl_graph.py: what every step of an ACLGraphWrapper keeps, and the counter
-- of captured graphs against the entries that have one.
use mathlib.Core.Path.{subst}
use vllm_ascend_origin.Prelude.{
  ℕ, ◌+◌, ◌≡◌, refl, sym, ap, ◌∙◌, inl, inr, Bool, not, Bool-cases, Option, none, some,
  Option-cases, List, [], ◌∷◌, ◌==◌, ==→eq, lookup, insert, lookup-insert, arith,
}
use vllm_ascend_origin.Prelude.Result.{
  Result, assertion_error, guard, Ensures, Ensures-bind, Ensures-any,
}
use vllm_ascend_origin.Prelude.Step.{Step}
use vllm_ascend_origin.AclGraph.{
  none_mode, AclGraphEntry, AclGraphWrapper, init_wrapper, in_world, set_entry, entry_of,
}

module _ {Graph Output : Type 0} where
  abbrev pub has_graph : AclGraphEntry Graph Output → ℕ
  has_graph entry = elim entry.aclgraph [ none ↦ 0 | some g ↦ 1 ]

  abbrev pub is_captured : Option (AclGraphEntry Graph Output) → ℕ
  is_captured none = 0
  is_captured (some entry) = has_graph entry

  -- How many entries have a graph.
  abbrev pub captured : List (ℕ × AclGraphEntry Graph Output) → ℕ
  captured [] = 0
  captured ((d, entry) ∷ entries) = has_graph entry + captured entries

  pub captured-insert :
      (d : ℕ) (entry : AclGraphEntry Graph Output) (entries : List (ℕ × AclGraphEntry Graph Output))
      → captured (insert d entry entries) + is_captured (lookup d entries)
        ≡ captured entries + has_graph entry
  unfolding insert lookup
  captured-insert d entry [] = omega arith
  captured-insert d entry ((j, old) ∷ entries) = elim (Bool-cases (j == d)) [
    | inl e ↦ rw e (omega arith)
    | inr e ↦ rw e (omega (arith, captured-insert d entry entries))
  ]

  pub no_graph : (entry : AclGraphEntry Graph Output) → entry.aclgraph ≡ none → has_graph entry ≡ 0
  no_graph entry e = ap (λ g. elim g [ none ↦ 0 | some x ↦ 1 ]) e

pub init_wrapper-Fresh :
    {World : Type 0} (Graph Output : Type 0) (mode : ℕ) (debugging gc_disable weak_ref : Bool)
    (count : ℕ) (world : World)
    → Ensures
        (λ (w : AclGraphWrapper World Graph Output). w.num_captured ≡ count + captured w.entries)
        (init_wrapper mode debugging gc_disable weak_ref count world)
unfolding init_wrapper
init_wrapper-Fresh Graph Output mode debugging gc_disable weak_ref count world =
    Ensures-bind (λ _. Unit {0}) _ (guard (not (mode == none_mode)) assertion_error) _
      (Ensures-any _) λ _ _. omega arith

module _ {World Graph Output : Type 0} where
  -- The entry of a descriptor has a graph, an output and the addresses of the capture.
  abbrev pub Captured : ℕ → Graph → Output → List ℕ → AclGraphWrapper World Graph Output → Type 0
  Captured d graph result ptrs w =
      lookup d w.entries
      ≡ some (record { aclgraph = some graph; output = some result; input_addresses = some ptrs })

  -- What every call keeps.
  pub record Kept (w w' : AclGraphWrapper World Graph Output) : Type 0 where
    pub mode : w'.runtime_mode ≡ w.runtime_mode
    pub debugging : w'.is_debugging_mode ≡ w.is_debugging_mode
    pub entries :
        (d : ℕ) (graph : Graph) (result : Output) (ptrs : List ℕ)
        → Captured d graph result ptrs w
        → Captured d graph result ptrs w'
    pub counted : w'.num_captured + captured w.entries ≡ w.num_captured + captured w'.entries

  pub Kept-trans : (u v w : AclGraphWrapper World Graph Output) → Kept u v → Kept v w → Kept u w
  Kept-trans u v w h k = record {
    mode = k.mode ∙ h.mode;
    debugging = k.debugging ∙ h.debugging;
    entries = λ d g o p c. k.entries d g o p (h.entries d g o p c);
    counted = omega (arith, h.counted, k.counted);
  }

  pub Kept-refl : (w : AclGraphWrapper World Graph Output) → Kept w w
  Kept-refl w = record { mode = refl; debugging = refl; entries = λ d g o p c. c; counted = refl }

  pub in_world-Kept :
      {A : Type 0} (m : Step World A) (w : AclGraphWrapper World Graph Output)
      → Kept w (in_world m w).1
  unfolding in_world
  in_world-Kept m w = record {
    mode = refl;
    debugging = refl;
    entries = λ d g o p c. c;
    counted = refl;
  }

  abbrev pub Open : ℕ → AclGraphWrapper World Graph Output → Type 0
  Open d w = is_captured (lookup d w.entries) ≡ 0

  -- An entry without a graph gives way, and the counter moves with it.
  pub bump-Kept :
      (d n : ℕ) (entry : AclGraphEntry Graph Output) (w : AclGraphWrapper World Graph Output)
      → Open d w
      → n ≡ w.num_captured + has_graph entry
      → Kept w (record (set_entry d entry w) { num_captured = n })
  unfolding set_entry
  bump-Kept d n entry w free e = record {
    mode = refl;
    debugging = refl;
    entries = λ j g o p c. elim (Bool-cases (d == j)) [
      | inl t ↦
          absurd
            (omega (arith, free, ap is_captured (ap (λ k. lookup k w.entries) (==→eq d j t) ∙ c)))
      | inr f ↦ lookup-insert d j entry w.entries ∙ rw f c
    ];
    counted = omega (arith, captured-insert d entry w.entries, free, e);
  }

  pub set_entry-Kept :
      (d : ℕ) (entry : AclGraphEntry Graph Output) (w : AclGraphWrapper World Graph Output)
      → Open d w
      → entry.aclgraph ≡ none
      → Kept w (set_entry d entry w)
  unfolding set_entry
  set_entry-Kept d entry w free e =
      bump-Kept d w.num_captured entry w free (omega (arith, no_graph entry e))

  pub set_entry-Open :
      (d : ℕ) (entry : AclGraphEntry Graph Output) (w : AclGraphWrapper World Graph Output)
      → entry.aclgraph ≡ none
      → Open d (set_entry d entry w)
  unfolding set_entry
  set_entry-Open d entry w e =
      let found : lookup d (insert d entry w.entries) ≡ some entry =
        ground (arith, lookup-insert d d entry w.entries) in
      ap is_captured found ∙ no_graph entry e

  pub in_world_to-Kept :
      {A : Type 0} (m : Step World A) (w t : AclGraphWrapper World Graph Output) (r : Result A)
      → in_world m w ≡ (r, t)
      → Kept w t
  in_world_to-Kept m w t r e =
      subst (λ (q : Result _ × AclGraphWrapper World Graph Output). Kept w q.1) e
        (in_world-Kept m w)

  -- The wrapper on the way from w to a capture for d.
  abbrev pub Ready :
      ℕ → AclGraphWrapper World Graph Output → AclGraphWrapper World Graph Output → Type 0
  Ready d w w' = Kept w w' × Open d w'

  pub set_entry-Ready :
      (d : ℕ) (entry : AclGraphEntry Graph Output) (w w' : AclGraphWrapper World Graph Output)
      → entry.aclgraph ≡ none
      → Ready d w w'
      → Ready d w (set_entry d entry w')
  set_entry-Ready d entry w w' e h =
      (Kept-trans _ _ _ h.0 (set_entry-Kept d entry w' h.1 e), set_entry-Open d entry w' e)

  pub in_world-Ready :
      {A : Type 0} (d : ℕ) (m : Step World A) (w w' : AclGraphWrapper World Graph Output)
      → Ready d w w'
      → Ready d w (in_world m w').1
  unfolding in_world
  in_world-Ready d m w w' h = (Kept-trans _ _ _ h.0 (in_world-Kept m w'), h.1)

  pub in_world_to-Ready :
      {A : Type 0} (d : ℕ) (m : Step World A) (w w' t : AclGraphWrapper World Graph Output)
      (r : Result A)
      → Ready d w w'
      → in_world m w' ≡ (r, t)
      → Ready d w t
  in_world_to-Ready d m w w' t r h e =
      subst (λ (q : Result _ × AclGraphWrapper World Graph Output). Ready d w q.1) e
        (in_world-Ready d m w w' h)

  pub entry_of-no_graph :
      (d : ℕ) (w : AclGraphWrapper World Graph Output) → Open d w → (entry_of d w).aclgraph ≡ none
  unfolding entry_of
  entry_of-no_graph d w h = ground arith

  pub entry_of-found :
      (d : ℕ) (entry : AclGraphEntry Graph Output) (w : AclGraphWrapper World Graph Output)
      → lookup d w.entries ≡ some entry
      → entry_of d w ≡ entry
  unfolding entry_of
  entry_of-found d entry w h = ground (arith, h)

  pub entry_of-Open :
      (d : ℕ) (w : AclGraphWrapper World Graph Output) → (entry_of d w).aclgraph ≡ none → Open d w
  entry_of-Open d w e = elim (Option-cases (lookup d w.entries)) [
    | inl h ↦ ap is_captured h
    | inr (entry, h) ↦
        ap is_captured h
        ∙ no_graph entry (
            ap (λ (x : AclGraphEntry Graph Output). x.aclgraph) (sym (entry_of-found d entry w h))
            ∙ e)
  ]
