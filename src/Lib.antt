-- ===== src/Lib.antt =====
-- A verification library for cmdman, a manager of long-running commands written in Go.
--
-- The program. A monitor process (cmdman/monitor) owns one supervised command: it restarts the
-- command by policy, keeps the last of its output in a scrollback ring, and sends the output to
-- viewers through a filter that takes blocked terminal sequences out. Compose projects
-- (cmdman/compose) group commands that depend on each other; they are normalized from a file,
-- layered by their dependencies and planned against the commands that are stored. A dashboard
-- (cmdman/mux, pkg/muxctl) shows them in panes, and each pane of a scaled command shows one replica.
--
-- The files.
--   Prelude: names of the libraries that are passed on, Boolean tests and list functions on the
--     native numbers (Prelude/Tests, Prelude/Lists), the last n elements of a list
--     (Prelude/Windows), Go's functions on byte slices (Prelude/Bytes), texts as keys and sorting
--     (Prelude/Text), Go's int (Prelude/Int), results with errors (Prelude/Results),
--     strconv.Atoi on 64 bits (Prelude/Numbers) and strconv.Itoa (Prelude/Digits).
--   Monitor/RingBuffer: cmdman/monitor/ringbuffer.go. `new_ring_buffer`, `write` and `bytes` are
--     newRingBuffer, Write and Bytes; each Go method holds the mutex for its whole body and is one
--     function on the record. RingBuffer/Bounds has the invariant, RingBuffer/History the contents.
--   Monitor/Notification: the OSC notification parsers of cmdman/monitor/runtime_state.go.
--   Monitor/HookFilter: cmdman/monitor/hook_filter.go. A Go method that appends to `out` is a
--     function to the new filter and the bytes that it appends; the nil filter is `none`. Children:
--     Verdicts (decideOsc before and at the end of a body), Sequences (one whole OSC sequence),
--     Account (every byte of the stream), Captures (complete bodies, beside the parsers),
--     Transparent (no kind blocked).
--   Monitor/Restart: cmdman/model/restart_policy.go and the run loop of cmdman/monitor/mon_run.go
--     (runLoop). A policy is a text, as in Go. Children: Limits (how often and with what the loop
--     ends), Retries (a command that goes on failing), Parse (the texts).
--   Monitor/Broadcaster: cmdman/monitor/broadcaster.go. A method is a function on the state, which is
--     `none` where Go would panic; an event is a whole method or a receive. Children: Invariant and
--     Steps (what every step keeps), Traffic (what a channel takes in and gives out), Delivery (runs).
--   Compose/Spec: the normalized command of cmdman/compose/spec.go, with the fields that are read.
--   Compose/Graph: cmdman/compose/graph.go. Go's maps are functions on names that answer Go's zero
--     value for a missing key. Children: Order (what a layering is), Degrees (the maps that the
--     first loops fill), Rounds (one round of the main loop), Selection (the names that a round
--     selects), Layers (the main loop), Linking (missing dependencies), Answers
--     (TopoLayers and ValidateDAG).
--   Compose/Entry: the labels of a stored command that cmdman/compose/plan.go and selection.go read.
--   Compose/Plan: ComputePlan of cmdman/compose/plan.go. The map of instances is a list of entries
--     with different keys; the config hash is an argument. Children: Keys and Instances (the loop over
--     the stored entries), Actions, Planned and Layered (the loops over the layers), Outcome, Excess
--     and Totality (what a plan is), Members, Created and Convergence (a plan after its creates).
--   Compose/Labels: BuildLabels of the same file; Labels/RoundTrip reads the labels back.
--   Compose/Target: cmdman/compose/target.go. A map that is ranged over is an association list. The
--     children: Meaning (what a resolved set selects), Validity (which targets resolve), Stored (the
--     counts that are read back from stored entries).
--   Compose/Lifecycle: the lifecycle events of cmdman/compose/lifecycle.go and the check of a
--     resource's events (validateResourceEvents). Child: Resources (what is accepted).
--   MuxCtl/Spec, MuxCtl/Layout: the sizes of pkg/muxctl/spec.go and the cells of
--     pkg/muxctl/layout.go; Layout/Fill adds the cells up. MuxCtl/Focus: PickFocus and
--     AppendLeafNames of the same file; Focus/Leaves lists the leaves. MuxCtl/Validate:
--     pkg/muxctl/validate.go; Visits has the walk over the leaves, Accepted what is accepted.
--   Frame: cmdman/frame/carve.go. Frame/Shape and Frame/Names have what is carved.
--   Mux/Spec, Mux/Cycle: the panes of cmdman/mux/spec.go and the walks and positions of
--     cmdman/mux/cycle_scale.go and targets.go; Cycle/Position has the next position, Cycle/Leaves the
--     targets. Mux/ScaleCodec: cmdman/mux/scale_codec.go and writeScalePosition; children Words,
--     RoundTrip, Decoded (what decoding any text gives) and Update. Mux/Window: cycleScaleWindow, with
--     the answers of the multiplexer as a record; Window/Written has what is written.
--   Monitor/Tests, Monitor/Broadcaster/Tests, Compose/Tests, Compose/Plan/Tests, MuxCtl/Tests,
--     Mux/Tests, Frame/Tests: the theorems at concrete inputs.
--
-- Bounds and fuel. Bytes are natural numbers; lengths, counts and cells are natural numbers without a
-- bound: Go's int is 64 bits wide, and neither a length nor a product of cells and weights comes near
-- it. A number that is read from a text is held to the 64 bits of strconv.Atoi. The main loop of the
-- layering takes as fuel the number of commands, and a round places at least one of them.
--
-- Not modelled: processes, sockets, the database, files, generated code, tmux and the terminal
-- emulator, which are I/O or other programs, and the formatting of error texts, whose data stand in
-- constructors.
pub mod Prelude
pub mod Monitor
pub mod Compose
pub mod MuxCtl
pub mod Mux
pub mod Frame
