-- ===== src/Lib.antt =====
-- The backend of the platform for shared GPU servers: it keeps accounts, nodes, containers and
-- their port mappings in one PostgreSQL database, and drives the nodes by tasks that an agent on
-- each node claims, works on and reports.
--
-- A request handler is a transaction `Tx A = Db → Result (A × Db)` on the record `Db` of the
-- tables (Database); an HTTPException is its status code, and it rolls back what the handler
-- wrote. SQL statements are functions on lists of rows (Prelude/Table): select, find, update,
-- delete. A serial id is a counter in `Db`. Times, ids and sizes are natural numbers; NULL is 0,
-- as the code's `or 0` reads it. The cores, memory, disk and GPUs that a request asks for, the
-- quotas and the ids of canary users are integers, since no schema bounds them (Prelude/Integers).
-- Text that a function takes apart is a list of code points.
--
--   Database         the tables of backend/app/database.py, `db` and `audit` of backend/app/core.py
--   Auth             backend/app/auth.py, with the session statements of backend/app/auth_routes.py;
--                    Auth/Password is its `change_password`, with backend/app/auth_policy.py and
--                    `_build_provider` of backend/app/sso/registry.py
--   Ports            backend/app/containers/ports.py: the two port pools, the table of mappings,
--                    the SSH keys
--   Tasks/Queue      backend/app/agent/routes.py and backend/app/agent/tasks.py: enqueue, claim,
--                    progress report, expiry of stalled synchronisations
--   Tasks/Results    `complete_node_task` of backend/app/agent/routes.py, for the tasks of
--                    containers and the retry of a failed synchronisation
--   Tasks/Lease      the lease of a claimed task, over sequences of steps of the queue
--   Containers       backend/app/containers/routes.py: lifecycle requests, deletion, the port
--                    routes, one round each of the expiry loop and the workspace loop;
--                    `enqueue_running_port_syncs` and the payloads
--   Tasks/Events     the registry of waiting requests in backend/app/agent/tasks.py
--   Scheduler        backend/app/containers/scheduler.py, with the storage mode of
--                    backend/app/platform_settings.py
--   PathProxy        the route key and the rewriting of paths in backend/app/http_path_proxy.py
--   PortRouter       backend/app/port_router.py, the rounds of `main` on the table of listeners;
--                    PortRouter/Backend is backend/app/internal/routes.py
--   Settings         backend/app/platform_settings.py and backend/app/settings/routes.py
--   Containers/Creation
--                    `create_container`, `retry_container` and `validate_container_path` of
--                    backend/app/containers/routes.py, `usage_for_user` and `incus_create_payload` of
--                    backend/app/containers/services.py, `allowed_node_ids_for_user` of
--                    backend/app/nodes/services.py, backend/app/images/policy.py
--   Tasks/Results/Retries
--                    sequences of failures of one data synchronisation
--   Nodes            stale nodes and the reports of containers in backend/app/nodes/services.py
--   Storage          the Incus images of the nodes: `sync_node_images` of
--                    backend/app/nodes/services.py and the searches of
--                    backend/app/storage/services.py, with the storage roots
--   Users            the access of users to nodes, and the creation of API tokens, in
--                    backend/app/users/routes.py
--   Tests            concrete databases
--
-- A lifecycle request (Containers/Lifecycle) moves a container to a waiting status and enqueues a
-- task (Tasks/Queue); the node's report (Tasks/Results) moves it on. The port routes use the
-- allocator and the table of Ports. A creation (Containers/Creation) runs on `Site`, the tables of
-- `Db` with those of GPUs, quotas, images and resources, and asks the Scheduler for a node. The
-- port router asks the backend for the mappings of Ports, round after round. The queue's steps
-- take place at times that the theorems quantify over; concurrent claims see rows that others hold
-- locked, a parameter, as FOR UPDATE SKIP LOCKED does.
--
-- Parameters: the hash of a token, `verify_password` and `hash_password` (PBKDF2 and a random
-- salt), the random draws (`draw i n` is the i-th draw below n), the port ranges and the values of
-- the environment, the time zones that exist, the ports that the system lets the router bind, the
-- answers of the two image queries of the scheduler and of creation, and the statements of
-- `complete_node_task` for images, datasets, shared resources, directory scans and the success of
-- a linked synchronisation (OtherTypes). The loop of random draws runs for at most 2000 rounds, as
-- in the code; every other loop runs over a list of rows. Nothing runs on fuel.
--
-- Not modelled: the views that routes answer with, the detail of audit rows, the shared storage
-- settings that a task carries to its agent, the texts of the scheduler's reasons, the rest of the
-- storage services, the registration and configuration of nodes, the other routes of users,
-- images, data synchronisation, metrics, terminals, the frontend and the agent.
pub mod Prelude
pub mod Database
pub mod Auth
pub mod Ports
pub mod Tasks
pub mod Containers
pub mod Scheduler
pub mod PathProxy
pub mod PortRouter
pub mod Settings
pub mod Storage
pub mod Nodes
pub mod Users
pub mod Tests
