-- ===== src/Lib.antt =====
-- tanh-lib: a C++ library for real-time audio, with parameter state, modulation and DSP.
--
-- Base: names and lemmas that the other modules share (lists and families over native numbers,
-- circular windows).
-- Core.Rcu: include/tanh/core/threading/RCU.h. The program is a step relation over `Rcu`, one
--   step for each access to shared memory, for any number of threads: `register_reader_thread`,
--   `rcu_read_lock` (two steps), the load of `m_data_ptr`, `rcu_read_unlock`, the end of a
--   thread, and for the writer `update` with its three tiers of reclamation, `synchronize` and
--   `cleanup_dead_nodes`. The writer's mutex is the place `released`. Versions are numbered and
--   live in a heap. A flag tells if a store may become visible after a later load.
-- Dsp.RingBuffer: src/dsp/audio/RingBuffer.cpp, a channel as a record with the `size_t`
--   arithmetic written out; `Tape` is what it promises.
-- Dsp.Adsr: src/dsp/utils/ADSR.cpp, over the operations of `float` in Dsp.Float, of which only the
--   comparisons of 0 and 1 are assumed.
-- Dsp.SmootherBank, Dsp.SmoothedValue: include/tanh/dsp/utils/LinearSmootherBank.h and
--   src/dsp/utils/SmoothedValue.cpp, over the same operations, of which nothing is assumed.
-- Modulation.EventQueue: src/modulation/InputEventQueue.cpp, over the third-party queue of
--   Modulation.Transport, a parameter.
-- Modulation.Replace: src/modulation/ModulationMatrix.cpp, `apply_replace_sample` and
--   `apply_replace_sample_voice` with the state that a `ResolvedRouting` keeps for them.
-- Modulation.Rebuild: src/modulation/ModulationMatrix.cpp, passes 1 to 2 of
--   `rebuild_schedule_with_lock`: `pass_one`, `allocate_all` and `resolve`. Maps are functions, and
--   buffers are their geometry with their address.
-- Modulation.Routings: src/modulation/ModulationMatrix.cpp, the table of the user's routings:
--   `add_routing`, both `remove_routing`, `remove_source` and the finding of a routing.
-- Modulation.Routings.Updates: src/modulation/ModulationMatrix.cpp, the updates of depth and range
--   in the user's routing and in the published one, by identifier and by ends.
-- Modulation.Schedule: src/modulation/ModulationMatrix.cpp, the end of
--   `rebuild_schedule_with_lock` and `build_schedule_from_graph`. The variables that the
--   lambda `strongconnect` captures are the record `Tarjan`; the graph is a function from a
--   node to its list of edges, and source identifiers are numbers.
-- Modulation.Scopes: src/modulation/ModulationMatrix.cpp, the registry of scopes and the sources:
--   `register_scope`, `find_scope`, `voice_count`, `set_voice_count`, `prepare`, `add_source`,
--   `remove_source` and `resolve_parameter_scope_with_lock`. Of a source the model keeps the number
--   of voices that its `prepare` was last called with.
-- State.Paths: include/tanh/state/path_helpers.h, on strings as lists of character codes.
-- State.Groups: src/state/StateGroup.cpp, the tree of groups: `create_group`, `get_full_path`,
--   `resolve_path`, `resolve_path_create` and the keys that `create`, `set` and `get` build. Groups
--   are numbers, the root is number 0.
-- State.Values, State.Root: src/state/State.cpp, the conversions between types and the store: the
--   records are a heap of numbers, `m_storage` and `m_string_index_rcu` lists of entries and
--   `m_id_index_rcu` a function. The arithmetic of C++ is the record `Casts`. Of the notification
--   after a change the model has the search for the key's group, which may throw, and not the
--   callbacks of listeners.
-- State.Parameters: both together, `create`, `set` and `get` by a path.
-- State.Listeners: src/state/StateGroup.cpp, `add_listener`, `remove_listener` and
--   `notify_listeners`, whose result is the list of listeners called.
--
-- Bounds and fuel: ring buffers have at most 2^62 frames, so that no `size_t` sum wraps.
-- `drain_loop` takes fuel, and one more than the events queued is enough, since no event is
-- queued while it runs. `strongconnect` takes the number of nodes as fuel, which is enough, since
-- each level of the recursion gives a node its index. Paths are resolved on fuel of their length,
-- and the way up from a group on the number of groups. Samples and event values are of any type.
--
-- Not modelled: the rest of the modulation matrix, the JSON, ranges and formatters of the
-- parameter state, the audio device and file back ends, the other DSP arithmetic on floats, and
-- logging.
pub mod Base
pub mod Core
pub mod Dsp
pub mod Modulation
pub mod State
