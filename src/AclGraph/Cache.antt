-- ===== src/AclGraph/Cache.antt =====
-- vllm_ascend/compilation/acl_graph.py, ACLGraphWrapper.__call__: a graph is captured once for a
-- batch descriptor and replayed from then on, whatever raises in between.
use mathlib.Core.Path.{subst}
use vllm_ascend_origin.Prelude.{
  ◌+◌, ℕ, suc, ◌≡◌, ◌≢◌, refl, sym, ap, ◌∙◌, inl, inr, Bool, false, ◌&&◌, ◌||◌, not, Bool-cases,
  Option, none, some, Option-cases, List, [], ◌∷◌, ◌==◌, if◌then◌else◌, lookup-insert, arith,
}
use vllm_ascend_origin.Prelude.Result.{Result, ok, err, assertion_error, Ensures-ok}
use vllm_ascend_origin.Prelude.Step.{Step, ◌>>>◌, pure, then-post}
use vllm_ascend_origin.AclGraph.{
  none_mode, Argument, data_ptrs, same_addresses, Runtime, AclGraphEntry, AclGraphWrapper,
  init_wrapper, in_world, set_entry, entry_of, store_graph, capture_graph, addresses_match,
  replay_graph, call,
}
use vllm_ascend_origin.AclGraph.Entries.{
  captured, Captured, Kept, Kept-refl, Kept-trans, in_world_to-Kept, Open, bump-Kept, Ready,
  set_entry-Ready, in_world_to-Ready, entry_of-no_graph, entry_of-found, entry_of-Open,
  init_wrapper-Fresh,
}

module _ {World Graph Output : Type 0} (rt : Runtime World Graph Output) where
  -- What a capture leaves behind: when it returns, the output is stored for the replays.
  abbrev Stored :
      ℕ
      → List Argument
      → AclGraphWrapper World Graph Output
      → Result Output × AclGraphWrapper World Graph Output
      → Type 0
  Stored d args w r =
      Kept w r.1
      × ((out : Output)
          → r.0 ≡ ok out
          → (g : Graph) × Captured d g (rt.weak_ref out) (data_ptrs args) r.1)

  abbrev stored_entry : List Argument → Graph → Output → AclGraphEntry Graph Output
  stored_entry args g out = record {
    aclgraph = some g;
    output = some (rt.weak_ref out);
    input_addresses = some (data_ptrs args);
  }

  in_world-Stored :
      {A : Type 0} (d : ℕ) (args : List Argument) (m : Step World A)
      (f : A → Step (AclGraphWrapper World Graph Output) Output)
      (w w' : AclGraphWrapper World Graph Output)
      → Ready d w w'
      → ((a : A) (t : AclGraphWrapper World Graph Output) → Ready d w t → Stored d args w (f a t))
      → Stored d args w ((in_world m >>> f) w')
  in_world-Stored d args m f w w' h k =
      then-post (Stored d args w) (in_world m) f w'
        (λ x t e. ((in_world_to-Ready d m w w' t (err x) h e).0, λ out e. absurd (grind arith)))
        (λ a t e. k a t (in_world_to-Ready d m w w' t (ok a) h e))

  store_graph-Stored :
      (d : ℕ) (args : List Argument) (r : Graph × Output)
      (w w' : AclGraphWrapper World Graph Output)
      → Ready d w w'
      → Stored d args w (store_graph rt d args r w')
  unfolding store_graph set_entry
  store_graph-Stored d args (g, result) w w' h =
      let returned = if w'.weak_ref_output then rt.weak_ref result else result in
      (
        Kept-trans _ _ _ h.0
            (bump-Kept d (suc w'.num_captured) (stored_entry args g returned) w' h.1 (omega arith)),
        λ out e. (g, ground (arith, lookup-insert d d (stored_entry args g returned) w'.entries)),
      )

  capture_graph-Stored :
      (d : ℕ) (args : List Argument) (w : AclGraphWrapper World Graph Output)
      → Open d w
      → Stored d args w (capture_graph rt d args w)
  unfolding capture_graph
  capture_graph-Stored d args w free =
      in_world-Stored d args rt.validate_capturing _ w _
        (set_entry-Ready d _ w w (entry_of-no_graph d w free) (Kept-refl w, free))
        λ _ t h.
          in_world-Stored d args _ _ w _ (set_entry-Ready d _ w t (entry_of-no_graph d t h.1) h)
            λ r t' h'. store_graph-Stored d args r w t' h'

  in_world-pure-Kept :
      {A B : Type 0} (m : Step World A) (f : A → Result B) (w : AclGraphWrapper World Graph Output)
      → Kept w ((in_world m >>> λ a. pure (f a)) w).1
  unfolding pure
  in_world-pure-Kept m f w =
      then-post (λ r. Kept w r.1) (in_world m) _ w (λ x t. in_world_to-Kept m w t (err x))
        (λ a t. in_world_to-Kept m w t (ok a))

  abbrev Captures :
      ℕ
      → List Argument
      → AclGraphWrapper World Graph Output
      → Result (Option Output) × AclGraphWrapper World Graph Output
      → Type 0
  Captures d args w r =
      Kept w r.1
      × ((out : Output)
          → r.0 ≡ ok (some out)
          → (g : Graph) × Captured d g (rt.weak_ref out) (data_ptrs args) r.1)

  abbrev captures : ℕ → List Argument → Step (AclGraphWrapper World Graph Output) (Option Output)
  captures d args = capture_graph rt d args >>> λ out. pure (ok (some out))

  captures-Stored :
      (d : ℕ) (args : List Argument) (w : AclGraphWrapper World Graph Output)
      → Open d w
      → Captures d args w (captures d args w)
  unfolding captures pure
  captures-Stored d args w free =
      let h = capture_graph-Stored d args w free in
      then-post (Captures d args w) (capture_graph rt d args) _ w
        (λ x t e. (
          let s : Stored d args w (err x, t) = subst (Stored d args w) e h in s.0,
          λ out f. absurd (grind arith),
        ))
        (λ a t e.
          let s : Stored d args w (ok a, t) = subst (Stored d args w) e h in
          (s.0, λ out f. s.1 out (grind arith)))

  replay_graph-Kept :
      (g : Graph) (entry : AclGraphEntry Graph Output) (args : List Argument)
      (w : AclGraphWrapper World Graph Output)
      → Kept w (replay_graph rt g entry args w).1
  unfolding replay_graph
  replay_graph-Kept g entry args w =
      elim (Bool-cases (w.is_debugging_mode && not (addresses_match args entry))) [
        | inl t ↦ rw t (Kept-refl w)
        | inr t ↦ rw t (in_world-pure-Kept (rt.replay g) _ w)
      ]

  call-Kept :
      (mode d : ℕ) (args : List Argument) (w : AclGraphWrapper World Graph Output)
      → Kept w (call rt mode d args w).1
  unfolding call
  call-Kept mode d args w =
      elim (Bool-cases ((mode == none_mode) || not (mode == w.runtime_mode))) [
        | inl t ↦ rw t (in_world-pure-Kept (rt.runnable args) _ w)
        | inr t ↦ elim (Option-cases (entry_of d w).aclgraph) [
          | inl e ↦ rw (t, e) (captures-Stored d args w (entry_of-Open d w e)).0
          | inr (g, e) ↦ rw (t, e) (replay_graph-Kept g (entry_of d w) args w)
        ]
      ]

  -- Calls in turn, each with its mode, descriptor and arguments, whatever they return or raise.
  unfoldable pub run_calls :
      List (ℕ × ℕ × List Argument)
      → AclGraphWrapper World Graph Output
      → AclGraphWrapper World Graph Output
  run_calls [] w = w
  run_calls ((mode, d, args) ∷ calls) w = run_calls calls (call rt mode d args w).1

  run_calls-Kept :
      (calls : List (ℕ × ℕ × List Argument)) (w : AclGraphWrapper World Graph Output)
      → Kept w (run_calls calls w)
  unfolding run_calls
  run_calls-Kept [] w = Kept-refl w
  run_calls-Kept ((mode, d, args) ∷ calls) w =
      Kept-trans _ _ _ (call-Kept mode d args w) (run_calls-Kept calls (call rt mode d args w).1)

  test-taken :
      (mode : ℕ) (w : AclGraphWrapper World Graph Output)
      → mode ≡ w.runtime_mode
      → mode ≢ none_mode
      → (mode == none_mode || not (mode == w.runtime_mode)) ≡ false
  test-taken mode w e ne = ground arith

  call-Captured :
      (mode d : ℕ) (args : List Argument) (g : Graph) (out : Output) (ptrs : List ℕ)
      (w : AclGraphWrapper World Graph Output)
      → mode ≡ w.runtime_mode
      → mode ≢ none_mode
      → Captured d g out ptrs w
      → call rt mode d args w ≡ (
          if w.is_debugging_mode && not (same_addresses (data_ptrs args) ptrs)
          then (err assertion_error, w)
          else ((in_world (rt.replay g) >>> λ _. pure (ok (some out))) w))
  unfolding call replay_graph addresses_match
  call-Captured mode d args g out ptrs w e ne c =
      let found = entry_of-found d _ w c in
      let has : (entry_of d w).aclgraph ≡ some g =
        ap (λ (entry : AclGraphEntry Graph Output). entry.aclgraph) found in
      let replays : call rt mode d args w ≡ replay_graph rt g (entry_of d w) args w =
        rw (test-taken mode w e ne, has) refl in
      replays ∙ ap (λ entry. replay_graph rt g entry args w) found

  call-Captures :
      (mode d : ℕ) (args : List Argument) (w : AclGraphWrapper World Graph Output)
      → (mode == none_mode || not (mode == w.runtime_mode)) ≡ false
      → (entry_of d w).aclgraph ≡ none
      → Captures d args w (call rt mode d args w)
  unfolding call
  call-Captures mode d args w t e = rw (t, e) (captures-Stored d args w (entry_of-Open d w e))

  -- A call that captures a graph and returns an output makes every later call for its descriptor, if
  -- it has the wrapper's mode, replay that graph and return the weak reference of that output,
  -- whatever calls come in between, and whether they return or raise. While debugging, other
  -- addresses raise instead, and nothing changes.
  pub call-replays :
      (mode d : ℕ) (args : List Argument) (out : Output) (w : AclGraphWrapper World Graph Output)
      → mode ≡ w.runtime_mode
      → mode ≢ none_mode
      → (entry_of d w).aclgraph ≡ none
      → (call rt mode d args w).0 ≡ ok (some out)
      → (g : Graph) × ((calls : List (ℕ × ℕ × List Argument)) (args' : List Argument)
          → call rt mode d args' (run_calls calls (call rt mode d args w).1) ≡ (
              if w.is_debugging_mode && not (same_addresses (data_ptrs args') (data_ptrs args))
              then (err assertion_error, run_calls calls (call rt mode d args w).1)
              else ((in_world (rt.replay g) >>> λ _. pure (ok (some (rt.weak_ref out))))
                  (run_calls calls (call rt mode d args w).1))))
  call-replays mode d args out w e ne free returns =
      let h = call-Captures mode d args w (test-taken mode w e ne) free in
      let stored = h.1 out returns in
      (
        stored.0,
        λ calls args'.
            let w' = (call rt mode d args w).1 in
            let k = run_calls-Kept calls w' in
            let v = run_calls calls w' in
            call-Captured mode d args' stored.0 (rt.weak_ref out) (data_ptrs args) v
              (e ∙ sym (k.mode ∙ h.0.mode)) ne
              (k.entries d stored.0 (rt.weak_ref out) (data_ptrs args) stored.1)
            ∙ rw (k.debugging, h.0.debugging) refl,
      )

  -- From the start, any calls of the wrapper raise the counter of captured graphs, which the
  -- construction leaves alone, by the number of descriptors that have a graph: none is captured twice.
  -- What other wrappers count meanwhile is left out.
  pub run_calls-counts :
      (runtime_mode : ℕ) (debugging gc_disable weak_ref_output : Bool) (count : ℕ) (world : World)
      (calls : List (ℕ × ℕ × List Argument)) (w : AclGraphWrapper World Graph Output)
      → init_wrapper runtime_mode debugging gc_disable weak_ref_output count world ≡ ok w
      → (run_calls calls w).num_captured ≡ count + captured (run_calls calls w).entries
  run_calls-counts runtime_mode debugging gc_disable weak_ref_output count world calls w e =
      let start : w.num_captured ≡ count + captured w.entries =
        Ensures-ok _ _ w
          (init_wrapper-Fresh Graph Output runtime_mode debugging gc_disable _ count world) e in
      let k = run_calls-Kept calls w in omega (arith, start, k.counted)
