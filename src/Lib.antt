-- ===== src/Lib.antt =====
-- The core of the Goldstone management layer: the change transactions of a server, the sessions of
-- sysrepo under them, and what is built on them: the streaming telemetry, the Get and Set services
-- of the gNMI server, the DPLL server and the OpenConfig translation of interfaces.
--
-- Parts and files:
-- - Base: shared names. Base/Results has the exceptions and results, Base/Exec the methods that
--   change an object and may raise (what was written before a raise stays written), Base/Triple
--   the conditions and the views that such methods keep, Base/Dict
--   Python's dict as an association list in the order of insertion, Base/Text strings as lists of
--   code points.
-- - Core (src/lib/goldstone/lib/core.py): ServerBase. `Server` is `_current_handlers`,
--   `_stop_event` and the world of the subclass; `change_cb` is the callback under its lock, as one
--   step; `do_revert` is the task that waits for the client's timeout, in one step per handler, so
--   that callbacks can come between them; that a callback cancels it inside an asynchronous `revert`
--   is left out. The subclass is the parameter `Subclass`. Core/Handlers is `get_handler`.
--   Core/Contract is what a handler promises: `apply` writes down what `revert` needs to take it back,
--   an `apply` that raises changes nothing on the device, and no handler overwrites the notes of an
--   earlier one. South/Tai has handlers that keep it. Core/Fresh says that the handlers of a request are
--   different objects; Core/Keeps, Core/Undo and Core/Atomic are about one
--   'change'; Core/Phase is the abstract transaction, and Core/Protocol the refinement;
--   Core/Recovery is about 'abort' and the timeout, Core/Failures about what stays behind when the
--   code of a subclass raises, and Core/Deferred about servers that leave the datastore to `post`.
-- - Telemetry/Path (src/system/telemetry/goldstone/system/telemetry/path.py): PathParser. Its
--   libyang context is the parameter `Schema`.
-- - Telemetry/Store (src/system/telemetry/goldstone/system/telemetry/store.py): the two stores in
--   memory. Telemetry/Store/Interface is the interface that the subscriptions use, with its laws.
-- - Telemetry/Config and Telemetry/Subscription
--   (src/system/telemetry/goldstone/system/telemetry/telemetry.py): the configuration of a
--   subscription, and what it reads, stores and sends. The parameter `Platform` holds the schema,
--   the store, Python's `==` and `json.dumps`, the clock, the connector's deliveries and the order of a set. One round of a
--   loop is `loop_round`; the sleep between two rounds is left out.
-- - Telemetry/Server (the same file): the handlers of a subscribe-request, and TelemetryServer with
--   the loop tasks that are alive. Python's `int` is in Base/Text, for the digits of an unsigned
--   number.
-- - Gnmi (src/north/gnmi/goldstone/north/gnmi/server.py): Gnmi/Paths is `_parse_gnmi_path`,
--   Gnmi/Requests the requests of a Set and the parsing of their values into leaves, Gnmi/Server
--   `gNMIServicer.Set`, Gnmi/Get is GetRequest and `gNMIServicer.Get`, and Gnmi/Subscribe the queue
--   of notifications of a SubscribeRequest, where the number of calls of `pop` is given. The
--   repository (src/north/gnmi/goldstone/north/gnmi/repo/repo.py) is the parameter `Repository`.
--   Gnmi/Sysrepo (src/north/gnmi/goldstone/north/gnmi/repo/sysrepo.py) is the repository on a
--   connector. Texts of messages and timestamps are left out.
-- - Connector/Session (src/lib/goldstone/lib/connector/sysrepo.py and base.py): the sessions, with the
--   parameter `Sysrepo` for sysrepo, libyang and the order of a Python set. Connector/Errors is
--   src/lib/goldstone/lib/errors.py with the two maps to and from sysrepo's exceptions, and
--   Connector/Server is src/lib/goldstone/lib/server_connector/sysrepo.py, whose callback is put
--   around Core's `change_cb`.
-- - South/Dpll (src/south/dpll/goldstone/south/dpll/dpll.py): the handlers of the DPLL server, and the
--   server as a `Subclass`. taish and the order of floating-point numbers are the parameter `Taish`.
-- - South/Gearbox (src/south/gearbox/goldstone/south/gearbox/interfaces.py and gearbox.py): the values and
--   the parameter `Platform` for taish, json, base64, the float of a text and the connector. Info is the
--   platform's description, Names and Oids are the texts of names and object ids, Keys, Counters and
--   Mapping the texts of attributes; Devices finds, creates and configures interfaces; Handlers is
--   IfChangeHandler, Interfaces its subclasses, their server and, from Reads to Answer, its operational
--   state, which is read interface after interface; Modules is the server of gearbox.py.
-- - South/Tai (src/south/tai/goldstone/south/tai/transponder.py): the handlers of a module's own
--   configuration, on the parameter `Taish`; South/Tai/Undone shows that they keep Core's contract.
-- - Openconfig/Handler (src/xlate/openconfig/goldstone/xlate/openconfig/lib.py and interfaces.py): the
--   change handlers on a connector's sessions, and InterfaceServer as a `Subclass`.
--   Openconfig/Interface is the operational state of interfaces.py, Openconfig/Objects the tree of
--   factories that `oper_cb` goes through. Openconfig/Names has the names of components and
--   Openconfig/Channel the handlers of optical channels of
--   src/xlate/openconfig/goldstone/xlate/openconfig/platform.py.
--
-- No loops but `pull_notifs` and `wait_ready` need fuel: the others go through lists or through data of
-- finite depth. For `pull_notifs` more calls than there are responses are enough, and for `wait_ready`
-- one poll more than those before the module is ready or broken. The digits of a number n are
-- found in n + 1 steps at most.
--
-- Not modelled: the other southbound servers and translators, the command line, the SNMP agent, and
-- sysrepo, libyang and taish, which are not in the repository.
pub mod Base
pub mod Connector
pub mod Core
pub mod Gnmi
pub mod Openconfig
pub mod South
pub mod Telemetry
