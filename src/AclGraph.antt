-- ===== src/AclGraph.antt =====
-- vllm_ascend/compilation/acl_graph.py: ACLGraphWrapper, the cache of captured graphs. The runnable
-- and torch act on the state of the outside world. Graph modes, batch descriptors and addresses are
-- numbers, which the wrapper only compares.
pub mod Entries
pub mod Cache
mod Tests
use vllm_ascend_origin.Prelude.{
  ℕ, suc, Bool, true, false, ◌&&◌, ◌||◌, not, Option, none, some, List, [], ◌∷◌, ◌==◌,
  if◌then◌else◌, lookup, insert,
}
use vllm_ascend_origin.Prelude.Result.{Result, ok, err, assertion_error, guard, ◌>>=◌}
use vllm_ascend_origin.Prelude.Step.{Step, ◌>>>◌, pure}

-- CUDAGraphMode.NONE
abbrev pub none_mode : ℕ
none_mode = 0

-- An argument of a call: a tensor by its address, or any other value.
pub data Argument : Type 0 where
  tensor other : ℕ → Argument

-- [x.data_ptr() for x in args if isinstance(x, torch.Tensor)]
unfoldable pub data_ptrs : List Argument → List ℕ
data_ptrs [] = []
data_ptrs (tensor ptr ∷ args) = ptr ∷ data_ptrs args
data_ptrs (other x ∷ args) = data_ptrs args

unfoldable pub same_addresses : List ℕ → List ℕ → Bool
same_addresses [] [] = true
same_addresses (x ∷ xs) (y ∷ ys) = (x == y) && same_addresses xs ys
same_addresses xs ys = false

-- What the wrapper calls: the runnable, as it is and under torch.npu.graph, for which garbage
-- collection may be disabled; validate_cudagraph_capturing_enabled; weak_ref_tensors; and replay.
pub record Runtime (World Graph Output : Type 0) : Type 0 where
  pub runnable : List Argument → Step World Output
  pub validate_capturing : Step World (Unit {0})
  pub capture : Bool → List Argument → Step World (Graph × Output)
  pub weak_ref : Output → Output
  pub replay : Graph → Step World (Unit {0})

pub record AclGraphEntry (Graph Output : Type 0) : Type 0 where
  pub aclgraph : Option Graph
  pub output : Option Output
  pub input_addresses : Option (List ℕ)

pub record AclGraphWrapper (World Graph Output : Type 0) : Type 0 where
  pub runtime_mode : ℕ
  pub is_debugging_mode : Bool
  pub gc_disable : Bool
  pub weak_ref_output : Bool
  -- concrete_aclgraph_entries, by batch descriptor
  pub entries : List (ℕ × AclGraphEntry Graph Output)
  -- compilation_counter.num_cudagraph_captured, which is the process's and not the wrapper's own
  pub num_captured : ℕ
  pub world : World

module _ {Graph Output : Type 0} where
  -- `new_input_addresses == entry.input_addresses`
  unfoldable pub addresses_match : List Argument → AclGraphEntry Graph Output → Bool
  addresses_match args entry = elim entry.input_addresses [
    | none ↦ false
    | some ptrs ↦ same_addresses (data_ptrs args) ptrs
  ]

module _ {World Graph Output : Type 0} where
  -- The counter of the process stays as it is.
  unfoldable pub init_wrapper :
      ℕ → Bool → Bool → Bool → ℕ → World → Result (AclGraphWrapper World Graph Output)
  init_wrapper runtime_mode is_debugging_mode gc_disable weak_ref_output num_captured world =
      guard (not (runtime_mode == none_mode)) assertion_error >>= λ _. ok (record {
        runtime_mode = runtime_mode;
        is_debugging_mode = is_debugging_mode;
        gc_disable = gc_disable;
        weak_ref_output = weak_ref_output;
        entries = [];
        num_captured = num_captured;
        world = world;
      })

  -- A step of the outside world.
  unfoldable pub in_world :
      {A : Type 0} → Step World A → Step (AclGraphWrapper World Graph Output) A
  in_world m w = let (r, world) = m w.world in (r, record w { world = world })

  unfoldable pub set_entry :
      ℕ
      → AclGraphEntry Graph Output
      → AclGraphWrapper World Graph Output
      → AclGraphWrapper World Graph Output
  set_entry descriptor entry w = record w { entries = insert descriptor entry w.entries }

  -- `self.concrete_aclgraph_entries[batch_descriptor]`, behind the creation of a missing one
  unfoldable pub entry_of : ℕ → AclGraphWrapper World Graph Output → AclGraphEntry Graph Output
  entry_of descriptor w = elim (lookup descriptor w.entries) [
    | none ↦ record { aclgraph = none; output = none; input_addresses = none }
    | some entry ↦ entry
  ]

module _ {World Graph Output : Type 0} (rt : Runtime World Graph Output) where
  -- The entry with the graph, and the output of the call itself.
  unfoldable pub store_graph :
      ℕ → List Argument → Graph × Output → Step (AclGraphWrapper World Graph Output) Output
  store_graph descriptor args (graph, result) w =
      let out = if w.weak_ref_output then rt.weak_ref result else result in
      (
        ok out,
        record (set_entry descriptor
            (record {
              aclgraph = some graph;
              output = some (rt.weak_ref out);
              input_addresses = some (data_ptrs args);
            })
            w) { num_captured = suc w.num_captured },
      )

  -- The addresses are noted before the capture, which may raise.
  unfoldable pub capture_graph :
      ℕ → List Argument → Step (AclGraphWrapper World Graph Output) Output
  capture_graph descriptor args w =
      (in_world rt.validate_capturing >>> λ _ w'.
      (in_world (rt.capture w'.gc_disable args) >>> store_graph descriptor args) (
        set_entry descriptor
          (record (entry_of descriptor w') { input_addresses = some (data_ptrs args) }) w'))
        (set_entry descriptor (entry_of descriptor w) w)

  unfoldable pub replay_graph :
      Graph
      → AclGraphEntry Graph Output
      → List Argument
      → Step (AclGraphWrapper World Graph Output) (Option Output)
  replay_graph graph entry args w =
      if w.is_debugging_mode && not (addresses_match args entry)
      then (err assertion_error, w)
      else ((in_world (rt.replay graph) >>> λ _. pure (ok entry.output)) w)

  -- `mode` and `descriptor` are those of the forward context.
  unfoldable pub call :
      ℕ → ℕ → List Argument → Step (AclGraphWrapper World Graph Output) (Option Output)
  call mode descriptor args w =
      if (mode == none_mode) || not (mode == w.runtime_mode)
      then ((in_world (rt.runnable args) >>> λ out. pure (ok (some out))) w)
      else elim (entry_of descriptor w).aclgraph [
        | none ↦ (capture_graph descriptor args >>> λ out. pure (ok (some out))) w
        | some graph ↦ replay_graph graph (entry_of descriptor w) args w
      ]
