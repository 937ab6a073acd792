-- ===== src/Lib.antt =====
-- A model of pyaseba, the Python interface to networks of Aseba nodes, and what it makes correct.
--
-- The parts of the program and their files:
--
-- - `pyaseba/client/node/utils.py`: Utils.antt. `int16` and `matches`.
-- - `pyaseba/client/targets.py`: Targets.antt. Dashel targets such as `tcp:host=localhost;port=33333`;
--   texts are lists of code points.
-- - `pyaseba/client/node/mirroring.py`: Mirroring.antt and Mirroring/Code.antt. A `Mirroring` object
--   is the record of its attributes. Its construction, `mirror` for `Mirroring.__init__`, generates
--   the Aseba script character by character from a node's description and a configuration, and
--   fills the tables of events, variables and functions. An event with an unknown variable raises
--   the `KeyError` of the look-up.
-- - `pyaseba/client/node/node.py`: Node/. State.antt has the attributes of a `Node` object,
--   Cache.antt `set`, `sync` and `get`, Update.antt `update`, `get_all` and `_set_changes`,
--   Events.antt `emit`, `call`, `wait`, the callbacks and `_event_cb`, Connect.antt `connect`,
--   `load_script`, `start_mirroring`, the commands, `close` and `set_controller`, Construct.antt
--   `__init__`. Reach.antt makes the methods and the arriving events the steps of a relation; its
--   lemmas stand in Preserve.antt, Refresh.antt, Lives.antt, Link.antt and Arrive.antt. Memory/
--   sees the cached lists as one memory of words, Sync/ goes through the variables twice and in
--   another order, Connected.antt and Started.antt tell the outcomes of `connect` and
--   `start_mirroring` apart, and Observed.antt follows an event from the configuration to the
--   callback. Every method is a function from the state to a
--   result and a state, so that what was written before an exception stays written. The lists of
--   integers that the caches share are objects of a heap, since `_set_changes` writes into them in
--   place.
-- - `pyaseba/client/_client_impl`, a compiled module that `__init__.pyi` describes: Description.antt
--   and Client.antt. It is a parameter: a node's calls are logged in the state, and their answers
--   are arbitrary functions of the log. So nothing is assumed of the network and the remote
--   nodes.
-- - `pyaseba/client/thymio/thymio.py`: Thymio.antt, which gives a node the methods that a Thymio
--   overrides, the buffers of `prox.comm` messages, and what all instances share.
-- - `pyaseba/client/client_async.py`: ClientAsync.antt and ClientAsync/. Future.antt has
--   `call_async` and its two kin as functions of a sequence of signals: callbacks, passing time,
--   and turns of the event loop. Coroutines.antt has the coroutines that make a request by them;
--   ClientAsync.antt the loop of attempts in `connect`.
-- - `pyaseba/client/node/node_async.py`: NodeAsync.antt and NodeAsync/. The coroutines are
--   actions on the same state as the methods of `Node`; what happens whenever one awaits is a
--   function on the states, in Reach.antt any sequence of further steps.
-- - `pyaseba/client/__main__.py`, `pyaseba/client/node/shell.py`: Shells.antt and Shells/. A
--   command is a function from the typed text and a session, which lists what is printed.
-- - `pyaseba/__init__.py`: Printing.antt, the text of `print_description`, and
--   Printing/Levels.antt.
-- - `pyaseba/client/thymio/discover.py`: Discovery.antt.
-- - `pyaseba/examples/network/simple.py`: SimpleNode.antt, on a node of the network module whose
--   laws are named.
-- - `pyaseba/client/node/__main__.py`, `pyaseba/client/thymio/__main__.py`: Examples/Entry.antt.
-- - `examples/thymio/node/behavior.py`: Examples/Behavior.antt. The behaviors of the package
--   `thymio_behaviors` are named, and their chain is a parameter.
-- - `examples/thymio/node/callbacks_sync.py`: Examples/Callbacks.antt. What arrives while the
--   program waits is a list of the events of each second.
--
-- Base/ has what the parts share: numbers, texts and the methods of `str`, dicts as association
-- lists in the order of insertion, the heap of lists, exceptions as results, and the rounding of
-- floating-point products.
--
-- How they interact: `start_mirroring` makes a `Mirroring` from the node's description and loads
-- its script; from then on `_event_cb` reads the payloads of the mirrored events into the caches,
-- `call` emits the events of the mirrored functions, and `wait` and the callbacks go by the names
-- of the mirrored events. `connect` looks for a compatible target among the client's connections.
--
-- Bounds and fuel: integers are unbounded as in Python, and `int16` is written out. `decimal` runs
-- on the fuel `n + 1`, one for each digit and more. The loop `while vs` of `_set_changes` runs on
-- the fuel `2 * len(vs) + 2`: a round takes words off, or is followed by one that
-- ends the loop. The attempts to connect are a recursion on the number of retries.
--
-- Not modelled: the loop of `cmd.Cmd` that reads and dispatches the lines of the shells, the
-- logging of messages, what zeroconf answers, and the network module that simulates nodes, which
-- is compiled. Regular expressions are Python's: whether a pattern finds anything in a name is a
-- parameter. A method that does not await is one step: events arrive between two of them, and not
-- while one waits. Of the native calls only `load_script` raises exceptions. Sets are lists in the
-- order of their iteration, and the digits that `int` reads are those of ASCII. Times are
-- integers, control periods in microseconds; where the code multiplies one by 1000, the product is
-- that of the floating-point numbers next to it, which do not overflow.
pub mod Base
pub mod Utils
pub mod Targets
pub mod Description
pub mod Mirroring
pub mod Client
pub mod ClientAsync
pub mod Node
pub mod NodeAsync
pub mod Printing
pub mod Shells
pub mod SimpleNode
pub mod Discovery
pub mod Examples
pub mod Thymio
