-- ===== src/AclGraph/Tests.antt =====
-- Runs of the graph wrapper: graphs are numbered by the events before them, and a call's output is 7.
use vllm_ascend_origin.Prelude.{
  ℕ, ◌+◌, ◌≡◌, refl, true, false, none, some, List, [], ◌∷◌, length, lookup, insert, arith, not,
  ◌&&◌, if◌then◌else◌,
}
use vllm_ascend_origin.Prelude.Result.{ok, err, assertion_error, guard}
use vllm_ascend_origin.Prelude.Step.{◌>>>◌, pure}
use vllm_ascend_origin.AclGraph.{
  Argument, tensor, other, data_ptrs, same_addresses, Runtime, AclGraphWrapper, init_wrapper,
  in_world, set_entry, entry_of, store_graph, capture_graph, addresses_match, replay_graph, call,
}
use vllm_ascend_origin.AclGraph.Entries.{captured}
use vllm_ascend_origin.AclGraph.Cache.{run_calls, call-replays, run_calls-counts}

abbrev runtime : Runtime (List ℕ) ℕ ℕ
runtime = record {
  runnable = λ args events. (ok 7, 1 ∷ events);
  validate_capturing = λ events. (ok tt, events);
  capture = λ gc args events. (ok (length events, 7), 2 ∷ events);
  weak_ref = λ out. out + 100;
  replay = λ g events. (ok tt, 3 ∷ events);
}

abbrev wrapper : AclGraphWrapper (List ℕ) ℕ ℕ
wrapper = record {
  runtime_mode = 2;
  is_debugging_mode = true;
  gc_disable = false;
  weak_ref_output = false;
  entries = [];
  num_captured = 4;
  world = [];
}

init_run : init_wrapper 2 true false false 4 [] ≡ ok wrapper
unfolding init_wrapper guard
init_run = refl

abbrev inputs : List Argument
inputs = tensor 64 ∷ other 1 ∷ tensor 80 ∷ []

-- A capture, and a replay of it behind calls of another mode and another descriptor.
replay_run :
    (call runtime 2 5 inputs
      (run_calls runtime ((1, 5, []) ∷ (2, 6, []) ∷ []) (call runtime 2 5 inputs wrapper).1)).0
    ≡ ok (some 107)
unfolding call run_calls capture_graph store_graph replay_graph addresses_match same_addresses
    data_ptrs in_world set_entry entry_of lookup insert ◌>>>◌ pure
replay_run = refl

-- While debugging, other addresses raise.
other_addresses_run :
    (call runtime 2 5 [] (call runtime 2 5 inputs wrapper).1).0 ≡ err assertion_error
unfolding call capture_graph store_graph replay_graph addresses_match same_addresses data_ptrs
    in_world set_entry entry_of lookup insert ◌>>>◌ pure
other_addresses_run = refl

captured_out : (call runtime 2 5 inputs wrapper).0 ≡ ok (some 7)
unfolding call capture_graph store_graph data_ptrs in_world set_entry entry_of lookup insert ◌>>>◌
    pure
captured_out = refl

no_graph_yet : (entry_of 5 wrapper).aclgraph ≡ none
unfolding entry_of lookup
no_graph_yet = refl

call-replays_example :
    (g : ℕ) × ((calls : List (ℕ × ℕ × List Argument)) (args' : List Argument)
      → call runtime 2 5 args' (run_calls runtime calls (call runtime 2 5 inputs wrapper).1) ≡ (
          if true && not (same_addresses (data_ptrs args') (data_ptrs inputs))
          then (err assertion_error, run_calls runtime calls (call runtime 2 5 inputs wrapper).1)
          else ((in_world (runtime.replay g) >>> λ _. pure (ok (some 107)))
              (run_calls runtime calls (call runtime 2 5 inputs wrapper).1))))
call-replays_example =
    call-replays runtime 2 5 inputs 7 wrapper refl (omega arith) no_graph_yet captured_out

run_calls-counts_example :
    (run_calls runtime ((2, 5, inputs) ∷ (2, 6, []) ∷ (2, 5, inputs) ∷ []) wrapper).num_captured
    ≡ 4
      + captured
          (run_calls runtime ((2, 5, inputs) ∷ (2, 6, []) ∷ (2, 5, inputs) ∷ []) wrapper).entries
run_calls-counts_example =
    run_calls-counts runtime 2 true false false 4 []
      ((2, 5, inputs) ∷ (2, 6, []) ∷ (2, 5, inputs) ∷ []) wrapper init_run
