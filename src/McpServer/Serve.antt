-- ===== src/McpServer/Serve.antt =====
-- `Serve` and `writeMessage` of mcpserver/server.go. What the scanner yields is a list of messages;
-- the writer's answers come with them.
use flynn_extensions.Prelude.{
  Bool, true, false, ◌≡◌, ◌⊎◌, inl, inr, Bool-cases, Option-cases, if◌then◌else◌, Option, none,
  some, arith, List, [], ◌∷◌, ◌++◌, Bytes, refl, sym, ap, ◌∙◌, append_assoc, equal, codes,
}
use flynn_extensions.McpServer.{
  Request, Call, Response, Transport, Tool, Server, lookup, call_result, dispatch_method,
  dispatch_request, dispatch,
}

-- One message of the scanner: whether the context has ended by then, and whether the writer takes an
-- answer to it.
pub record Turn : Type 0 where
  pub cancelled : Bool
  pub line : Bytes
  pub writes : Bool

pub data ServeEnd : Type 0 where
  end_of_input scan_failed context_ended marshal_failed write_failed : ServeEnd

-- What the loop wrote, in which state it left the extension, and how it ended.
pub record Served (S : Type 0) : Type 0 where
  pub written : List Bytes
  pub state : S
  pub ended : ServeEnd

-- The newline that `writeMessage` puts behind a message.
abbrev pub framed : Bytes → Bytes
framed b = b ++ b'\n' ∷ []

module _ {S E : Type 0} (t : Transport E) where
  abbrev stopped : S → ServeEnd → Served S
  stopped st e = record { written = []; state = st; ended = e }

  abbrev write_message : Turn → Option Bytes → S → (S → Served S) → Served S
  write_message turn none st later = stopped st marshal_failed
  write_message turn (some b) st later = elim turn.writes [
    | true ↦ record (later st) { written = framed b ∷ (later st).written }
    | false ↦ stopped st write_failed
  ]

  abbrev after_line : Turn → Option (Response E) × S → (S → Served S) → Served S
  after_line turn (none, st) later = later st
  after_line turn (some r, st) later = write_message turn (t.marshal_response r) st later

  -- The body of the loop; `later` is the rest of it, from the state that this turn leaves.
  abbrev serve_line : Server S E → Turn → Bytes → S → (S → Served S) → Served S
  serve_line s turn [] st later = later st
  serve_line s turn (x ∷ xs) st later = after_line turn (dispatch t s (x ∷ xs) st) later

  abbrev serve_turn : Server S E → Turn → S → (S → Served S) → Served S
  serve_turn s turn st later =
      if turn.cancelled
      then stopped st context_ended
      else serve_line s turn (t.trim_space turn.line) st later

  -- The loop of `Serve` over the scanner's messages; the flag says that the scanner then failed.
  unfoldable pub serve : Server S E → List Turn → Bool → S → Served S
  serve s [] failed st = stopped st (if failed then scan_failed else end_of_input)
  serve s (turn ∷ rest) failed st = serve_turn s turn st (λ st'. serve s rest failed st')

-- A call of a tool that one of the messages makes.
pub record Makes {E : Type 0} (t : Transport E) (turns : List Turn) (call : Call) : Type 0 where
  pub before : List Turn
  pub turn : Turn
  pub later : List Turn
  pub among : turns ≡ before ++ (turn ∷ later)
  pub request : Request
  pub read : t.unmarshal_request (t.trim_space turn.line) ≡ some request
  pub is_call : equal request.method (codes "tools/call") ≡ true
  pub called : t.unmarshal_call request.params ≡ some call

module _ {S E : Type 0} (t : Transport E) (s : Server S E) where
  -- A request leaves the state alone, or it is a call.
  dispatch_request-state :
      (r : Request) (st : S)
      → ((dispatch_request t s r st).1 ≡ st)
        ⊎ ((equal r.method (codes "tools/call") ≡ true)
            × ((dispatch_request t s r st).1 ≡ (call_result t s r.id r.params st).1))
  unfolding dispatch_request dispatch_method
  dispatch_request-state r st = ground arith

-- What every call of a tool that the messages make keeps, the loop keeps: whatever it reads, and however
-- it ends.
module _ {S E : Type 0} (t : Transport E) (s : Server S E) (P : S → Type 0) (turns : List Turn)
    (keeps : (call : Call) (tool : Tool S E)
      → lookup call.name s.tools ≡ some tool
      → Makes t turns call
      → (st : S) → P st
      → P (tool.handler call.arguments st).1) where
  call_result-keeps :
      (id params : Bytes) (st : S)
      → ((call : Call) → t.unmarshal_call params ≡ some call → Makes t turns call)
      → P st
      → P (call_result t s id params st).1
  unfolding call_result
  call_result-keeps id params st makes h = elim (Option-cases (t.unmarshal_call params)) [
    | inl unread ↦ rw unread h
    | inr (call, read) ↦ elim (Option-cases (lookup call.name s.tools)) [
      | inl missing ↦ rw (read, missing) h
      | inr (tool, found) ↦ rw (read, found) (keeps call tool found (makes call read) st h)
    ]
  ]

  dispatch-keeps :
      (before : List Turn) (turn : Turn) (later : List Turn) (line : Bytes) (st : S)
      → turns ≡ before ++ (turn ∷ later)
      → t.trim_space turn.line ≡ line
      → P st
      → P (dispatch t s line st).1
  unfolding dispatch
  dispatch-keeps before turn later line st among trimmed h =
      elim (Option-cases (t.unmarshal_request line)) [
        | inl unread ↦ rw (dispatch, unread) h
        | inr (r, read) ↦ elim (dispatch_request-state t s r st) [
          | inl same ↦ rw (dispatch, read) (rw same h)
          | inr (is_call, call) ↦
              rw (dispatch, read)
                (rw call (
                  call_result-keeps r.id r.params st
                    (λ c made. record {
                      before = before;
                      turn = turn;
                      later = later;
                      among = among;
                      request = r;
                      read = ap t.unmarshal_request trimmed ∙ read;
                      is_call = is_call;
                      called = made;
                    })
                    h))
        ]
      ]

  after_line-keeps :
      (turn : Turn) (answer : Option (Response E) × S) (later : S → Served S)
      → P answer.1
      → ((st : S) → P st → P (later st).state)
      → P (after_line t turn answer later).state
  after_line-keeps turn (none, st) later h k = k st h
  after_line-keeps turn (some r, st) later h k = elim (Option-cases (t.marshal_response r)) [
    | inl failed ↦ rw failed h
    | inr (b, written) ↦
        rw written
          (elim (Bool-cases turn.writes) [ inl taken ↦ rw taken (k st h) | inr lost ↦ rw lost h ])
  ]

  serve_line-keeps :
      (before : List Turn) (turn : Turn) (rest : List Turn) (line : Bytes) (st : S)
      (later : S → Served S)
      → turns ≡ before ++ (turn ∷ rest)
      → t.trim_space turn.line ≡ line
      → P st
      → ((st : S) → P st → P (later st).state)
      → P (serve_line t s turn line st later).state
  serve_line-keeps before turn rest [] st later among trimmed h k = k st h
  serve_line-keeps before turn rest (x ∷ xs) st later among trimmed h k =
      after_line-keeps turn (dispatch t s (x ∷ xs) st) later
        (dispatch-keeps before turn rest (x ∷ xs) st among trimmed h) k

  serve-keeps_from :
      (before rest : List Turn) (failed : Bool) (st : S)
      → turns ≡ before ++ rest
      → P st
      → P (serve t s rest failed st).state
  unfolding serve
  serve-keeps_from before [] failed st among h = h
  serve-keeps_from before (turn ∷ rest) failed st among h = elim (Bool-cases turn.cancelled) [
    | inl ended ↦ rw ended h
    | inr going ↦ rw going (
        serve_line-keeps before turn rest (t.trim_space turn.line) st
          (λ st'. serve t s rest failed st') among refl h
          (λ st' h'.
            serve-keeps_from (before ++ turn ∷ []) rest failed st'
              (among ∙ sym (append_assoc before (turn ∷ []) rest)) h'))
  ]

  pub serve-keeps : (failed : Bool) (st : S) → P st → P (serve t s turns failed st).state
  serve-keeps failed st h = serve-keeps_from [] turns failed st refl h
