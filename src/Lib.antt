-- ===== src/Lib.antt =====
-- A verification library for the Cowrie honeypot: its backend pool, its limits on logins and
-- outbound requests, and the file system and accounts that it shows. The pool keeps a number of
-- virtual machines (guests) booted; a proxy asks it for one when an attacker connects, and gives
-- it back when the attacker leaves.
--
-- The parts, and how they interact:
--
-- * Pool (cowrie/src/backend_pool/pool_service.py). Pool/Guest and Pool/Service hold the states, the
--   class Guest and the fields of PoolService, with its start, stop and queries. Pool/Producer is one
--   pass of `producer_loop`, a function for each `__producer_…` method. Pool/Consumers is
--   `request_vm`, `free_vm` and `reuse_vm`. The list `self.guests` is the one store: the filtered lists
--   that the methods loop over refer to the same objects, so a loop over guests is a map over that list,
--   and a method that returns a guest returns its position.
-- * Nat (cowrie/src/backend_pool/nat.py). NATService: a dict of bindings, and the ports that the reactor
--   listens on, which stands for the state of the listeners. Nat/Proxy is the proxy behind such a port.
-- * Server (cowrie/src/backend_pool/pool_server.py). `data_received` is PoolServer.dataReceived as a
--   state and error monad over the factory, which holds the pool, which holds the NAT service.
--   Server/Packing has the formats of its answers.
-- * Client (cowrie/src/cowrie/pool_interface/client.py and handler.py). The messages to the server
--   and the reading of its answers; what the client calls on its parent is a result.
-- * Protocol puts client and server together: each message is followed from one end to the other.
-- * RateLimiter (cowrie/src/cowrie/core/rate_limiter.py). The limiter of outbound requests, against a log of
--   all the requests that were allowed.
-- * Auth (cowrie/src/cowrie/core/auth.py). UserDB's ordered rules, and AuthRandom, which lets an address in
--   after a number of attempts that is drawn for it.
-- * Fs (cowrie/src/cowrie/shell/fs.py). Fs/Paths is resolve_path, Fs/Node the tree, Fs/Lookup getfile,
--   get_path and the tests, Fs/Changes and Fs/Attributes the calls that change the tree, in a
--   state and error monad; Fs/Glob and Fs/Uploads are resolve_path_wc and the open descriptors. A reference to a node is its position in the tree.
-- * Shell (cowrie/src/cowrie/shell/honeypot.py and protocol.py). Shell/Line is lineReceived with the subshells and
--   substitutions of Shell/Subst and Shell/Scan, in a state and error monad over the lexer; Shell/Words and
--   Shell/Run are runCommand and call_command, which call each other, over Shell/Stages, the objects
--   of a pipeline as a list; Shell/Find is getCommand over Fs, Shell/Prompt the prompt.
-- * Commands (cowrie/src/cowrie/commands/fs.py). Directories are cd, pwd, mkdir, rmdir and touch, Removal the loop
--   of rm, Lines what tail and head write, over Fs and the working directory of Commands/Context.
-- * SshProxy (cowrie/src/cowrie/ssh_proxy/protocols/ssh.py, term.py and base_protocol.py). SshProxy/Reader takes packets
--   apart; SshProxy/Channels is the state with its channels, SshProxy/Messages `parse_num_packet`, in a state and error
--   monad, over sessions that are a parameter; SshProxy/Term is the session of a shell, SshProxy/Editor what it follows.
--   Withheld, over Relay, and Conversation, over Delivered, are about what `parse_num_packet` passes on, Typing,
--   Keystrokes and Within about Term from packet to packet.
-- * TelnetProxy (cowrie/src/cowrie/telnet_proxy/handler.py). The handler of the proxy, as steps that may raise: it
--   writes its log by TtyLog, and what it gives the two transports is kept in lists.
-- * TtyLog (cowrie/src/cowrie/core/ttylog.py, insults/insults.py and scripts/playlog.py). TtyLog/Record has the format
--   of the log and its functions, TtyLog/Terminal the protocol that writes it, TtyLog/Replay what is shown of it. The
--   loops over a file have as fuel the number of its bytes and one more.
-- * WebTrap (WebTrap/webtrap/session.py). The sessions of the HTTP honeypot, which two tables refer to: a store of
--   sessions and their positions in it.
-- * Accounts (cowrie/src/cowrie/shell/pwd.py). The entries of passwd and group.
-- * Network (cowrie/src/cowrie/core/network.py). The filter of outbound connections: Network/Ipv4, Ipv6 and
--   Addresses are what it uses of `ipaddress`, Network/Filter its functions. The chase of canonical names
--   has fuel, one look-up for each name and one more, which Network/Sound shows to be enough.
-- * Wire holds what the two ends use of Python's `struct` (big-endian, standard sizes) and of UTF-8.
-- * Base holds tests, lists, integers, texts, dicts and results over the native numbers.
--
-- Outside the model, and so arguments of it: the clock (whole ticks), `nmap_port`, the ports that
-- `listenTCP` gives, the answers of DNS, the function sha256, the tokens that `shlex` gives, the search of compiled patterns, the numbers that are drawn, the files of the
-- host, and what libvirt does at the creation and the destruction of a guest. A creation may
-- raise; a created guest's address passed the test that the pool hands over only where a theorem
-- asks for it. Log messages, the lock and the bodies of Twisted's classes are left out: the steps
-- of the pool are the parts of the code between which other threads may run. A part that holds the
-- lock is one step. `request_vm` is one step, too, though it looks for a guest under the lock, up to three times, and
-- takes it without: what another thread does in between is left out.
--
-- Loops are structural recursion, over the list of guests or the number of guests to create, so
-- that there is no fuel; the exceptions are the chase of canonical names in Network, the loops over a log in TtyLog, the reading
-- of a line in Shell, with a round for each token, which is shown to be enough, and the calls that nest: getfile,
-- which calls itself to follow a link, and those of Shell/Run and Shell/Scan. Their first argument is
-- how deep Python lets calls nest, beyond which Python raises too. Numbers of
-- Python are unbounded: natural numbers where the code never goes below 0, else integers
-- (`connected`, ports, times of release). What goes over the wire is bounded by its format: four
-- bytes for ids and settings, two for lengths and ports.
--
-- Not modelled: the honeypot's other commands and the completion of words, the SSH and Telnet servers, the proxy's SFTP,
-- the output plug-ins, libvirt's own calls, WebTrap's routes and the honeypot HonnyPotter.
pub mod Base
pub mod Nat
pub mod Wire
pub mod Server
pub mod Client
pub mod Protocol
pub mod RateLimiter
pub mod Pool
pub mod Auth
pub mod Fs
pub mod Accounts
pub mod Network
pub mod Shell
pub mod Commands
pub mod SshProxy
pub mod TelnetProxy
pub mod TtyLog
pub mod WebTrap
