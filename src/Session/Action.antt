-- ===== src/Session/Action.antt =====
-- What a handler of the WebSocket protocol does: it reads and writes its connection and the store,
-- and may stop with an error. What was done before the error stays done.
use bitphase_file_share.Prelude.{Text, Result, ok, err}
use bitphase_file_share.Ws.Message.{WsConn}
use bitphase_file_share.Store.Ops.{Store}

pub record Peer : Type 0 where
  pub ws : WsConn
  pub store : Store

abbrev pub Action : Type 0 → Type 0
Action A = Peer → Result A × Peer

module _ {A : Type 0} where
  abbrev pub pure : A → Action A
  pure a p = (ok a, p)

  abbrev pub raise : Text → Action A
  raise e p = (err e, p)

  abbrev pub lift : Result A → Action A
  lift r p = (r, p)

  -- A look at the store, which may fail.
  abbrev pub look : (Store → Result A) → Action A
  look f p = (f p.store, p)

  -- A call that changes the store; its error is a value here.
  abbrev pub attempt : (Store → A × Store) → Action A
  attempt f p = (ok (f p.store).0, record p { store = (f p.store).1 })

  -- A call that changes the store, whose error ends the handler.
  abbrev pub update : (Store → Result A × Store) → Action A
  update f p = ((f p.store).0, record p { store = (f p.store).1 })

  -- A call on the connection.
  abbrev pub on_ws : (WsConn → Result A × WsConn) → Action A
  on_ws f p = ((f p.ws).0, record p { ws = (f p.ws).1 })

abbrev pub done : Action (Unit {0})
done p = (ok tt, p)

module _ {A B : Type 0} where
  abbrev pub continue : Result A → (A → Action B) → Action B
  continue (ok a) f p = f a p
  continue (err e) f p = (err e, p)

  infixl 5 ◌>>=◌ ◌>>◌
  abbrev pub ◌>>=◌ : Action A → (A → Action B) → Action B
  ◌>>=◌ m f p = let (r, p') = m p in continue r f p'

  abbrev pub ◌>>◌ : Action A → Action B → Action B
  m >> n = m >>= λ _. n
