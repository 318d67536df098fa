-- ===== src/Lib.antt =====
-- flynn-extensions: the Solana signer, the MCP harness it speaks through, and the token extension, from
-- its safety policy to the sessions in which it mints.
--
-- The program. A worker extension (token/, cmd/token) builds a transaction; a signer extension
-- (cmd/solana-signer) holds the key, reads the transaction and decides whether to sign it. Both are
-- MCP servers over stdio (mcpserver/). The signer's harness (signer/) is the same for every chain: it
-- keeps the key in a vault that an unlock fills, and asks a policy before it signs. The Solana policy
-- and its message parser are solana/. Before the worker builds anything, the safety policy
-- (token/safety/) judges a plan of it. The worker holds neither a key nor a network: its engine
-- (token/) runs in a session that hands each signature and each request to the host.
--
-- The files, and the code that each models:
--   Solana/Reader, Solana/Message, Solana/Base58: solana/message.go. `reader` is a record with its
--     offset, a read is a function from a reader to a value and the next reader or to an error, and
--     each return of an error has a constructor. Solana/Message/Wire is the specification: a message
--     in full, its bytes, and the part that `parseMessage` keeps.
--   Solana/Policy: solana/solana.go, `Approve` and `BindKey`. Solana/Policy/Uses is the specification:
--     the uses that a key is granted for, said of the message.
--   McpServer: mcpserver/server.go, `Register`, `listResult`, `dispatch`, `callResult` and, in
--     McpServer/Serve, `Serve`. A handler is a function on the state of its extension.
--   Signer: signer/signer.go, `unlockTool`, `signTool` and `Serve`, over the interfaces `Key`, `Opener`
--     and `Policy`; Signer/Guard and Signer/Reply put the Solana policy in. Signer/Custody: signer/key.go.
--   SolanaSigner: cmd/solana-signer/main.go, `run` and what it calls.
--   Token/Safety, Token/Impersonation: token/safety/. Token/Network: token/network.go and
--     `resolveNetwork` of token/engine.go. Token/Amount: `scaledAmount` of token/engine.go.
--     Token/Create: token/borsh.go and `validateMetadata` of token/mint.go. Token/Verify: `Verify` of
--     token/engine.go, `verifySafe`, `checkSupply` and `resolveUnconfirmed` of token/mint.go.
--   Token/Ledger: the calls by which an engine leaves the process, `RPCClient` and `Signer` of
--     token/engine.go. Code between such calls is a `Proc`, a tree of calls and continuations, which
--     `run` drives against a world: a function from what has happened so far to an answer.
--     Token/Ledger/Leads says what code guarantees whatever it is answered. Token/Engine: `send` and
--     `confirmOrExpire` of token/engine.go; Token/Engine/Expired puts a growing chain below them.
--     Token/Atomic: token/atomic.go, with the effect of the instructions on the mint and on its
--     token accounts as specification in Token/Atomic/Finished. Token/Mint: `Mint` of token/mint.go,
--     `ContentAddressed` of token/network.go.
--   Token/Host: token/hostrpc.go, and the signer of token/session.go: how each call crosses to the host.
--     Token/Session: token/session.go; the goroutine of a session is its remaining behaviour, and a
--     driver answers its calls. Token/Session/Granted and Token/Session/Signed put a mint session before
--     the signing policy and before a running signer; the messages of a mint are in Token/Mint/Granted
--     and Token/Engine/Messages. Token/Ledger/Asks says which calls code makes. Token/Samples and
--     Token/Session/Library: concrete libraries for the runs.
--   TokenCommand: cmd/token/main.go and token/address.go: the registry of the sessions, the handlers of
--     the tools, which start and resume them, their replies (Replies), and the server that hosts both
--     (Extension). Lifecycles says which sessions the registries hold while the server runs; Told is a
--     host's reading of a reply; Granted and Verified follow a call of each tool to its reply, and
--     Signed from there to the signer.
--   Example: cmd/example/main.go, the extension that is a template.
--   Clock: clock/clock.go and clock/timer.go, the manual clock. Its timers are cells of a store, which
--     the list of pending timers refers to by their numbers.
--   Prelude: lists, results and actions that the others share. The modules called Runs hold runs at
--     concrete inputs.
--
-- Conventions. A string or a slice of bytes is a list of numbers; that they are below 256 is a
-- hypothesis where it matters. In token/safety a text is the list of its runes. Go's `(value, error)`
-- is a `Result`, and an error's text is a constructor. Numbers of 64 bits keep their wrap-around. The
-- loops are structural recursions over lists or over the bounds that the source gives (three bytes of a
-- length; base58's carry is below 256 * 58, so the inner loop of at most 33 steps is enough). The loop
-- of `confirmOrExpire` has no bound of its own: its `select` between the timer and the context is the
-- number of turns that the timer wins, and when that number is enough is a theorem.
--
-- Parameters, which stand for code that is not in this repository: encoding/json and base64 (the
-- records Transport and Codec), argon2, AES-GCM, ed25519, the random source and the file system (the
-- record Host, with its documented laws in HostLaws), Go's Unicode tables (the record Unicode),
-- solana-go's addresses and mint decoder (the record Programs), its builders (the record Builders) and
-- transactions, url.Parse (the record Sdk), its JSON-RPC client (the record Wire), strconv and base58
-- (the record Texts), the printing of a reply (the record Printer), package flag and the terminal (the
-- records Flags and Stdin), time.Time (the record Time), the answers of a node, the keys that a process
-- draws for its mints, and the scanner and the writer of the serving loop (the list of its turns). What
-- solana-go documents of the builders and of a transaction's bytes is the record IsLibrary of
-- Token/Mint/Granted, and what the programs on the chain document of the instructions is the record
-- IsDocumented of Token/Atomic/Finished.
--
-- Not modelled: the texts of errors and of the policy's violations, which are constructors; the system
-- clock of clock/, which only calls package time; the end of a context while a call of the host waits
-- (`Close`, and the deadlines lifecycleBudget and cleanupBudget of token/mint.go, in `roundTrip`), so a
-- session is followed while no context ends; and what a `main` prints on its way out, and its exit
-- code. The mutexes of the vault and the registry are left out, since the server runs one handler at a
-- time, and that of the clock, which each method holds throughout.
pub mod Clock
pub mod Prelude
pub mod Solana
pub mod Example
pub mod McpServer
pub mod Signer
pub mod SolanaSigner
pub mod Token
pub mod TokenCommand
