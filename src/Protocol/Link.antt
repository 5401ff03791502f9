-- ===== src/Protocol/Link.antt =====
-- src/unex/Unex721Protocol.cpp: the exchange of one command for one reply over the serial port.
-- The port is an interface (its implementation is include/skud/SerialPort.h), and what the protocol
-- tells its `TraceFn` is kept in the state, without the message texts.
use monk_skud_unex.Base.{
  ℕ, zero, suc, List, ◌∷◌, Bool, ◌&&◌, not, Option, none, some, Bytes, is_empty, bytes_eq,
  if◌then◌else◌,
}
use monk_skud_unex.Protocol.Frame.{frame, valid_frame, extended_frame, valid_extended_frame}

-- A reply of no bytes is a timeout. The number is the timeout in milliseconds.
pub record Port (W : Type 0) : Type 0 where
  pub write_all : Bytes → W → Bool × W
  pub read_frame : ℕ → W → Bytes × W
  pub read_extended_frame : ℕ → W → Bytes × W

pub data Direction : Type 0 where
  tx rx info event : Direction

pub data Wire : Type 0 where
  standard extended semantic : Wire

pub record TraceEntry : Type 0 where
  pub direction : Direction
  pub node : ℕ
  pub command : ℕ
  pub wire : Wire
  pub bytes : Bytes

pub record Link (W : Type 0) : Type 0 where
  pub port : W
  pub trace : List TraceEntry

abbrev pub M : Type 0 → Type 0 → Type 0
M W A = Link W → A × Link W

module _ {W A : Type 0} where
  abbrev pub pure : A → M W A
  pure a s = (a, s)

module _ {W A B : Type 0} where
  infixl 10 ◌>>=◌ ◌>>◌
  abbrev pub ◌>>=◌ : M W A → (A → M W B) → M W B
  ◌>>=◌ m f s = let r = m s in f r.0 r.1

  abbrev pub ◌>>◌ : M W A → M W B → M W B
  m >> n = m >>= λ _. n

module _ {W : Type 0} where
  unfoldable pub tell : Direction → ℕ → ℕ → Wire → Bytes → M W Unit
  tell direction node command wire bytes s = (tt, record s { trace = entry ∷ s.trace })
    where
      entry : TraceEntry
      entry = record {
        direction = direction;
        node = node;
        command = command;
        wire = wire;
        bytes = bytes;
      }

  unfoldable pub on_port : {A : Type 0} → (W → A × W) → M W A
  on_port f s = let r = f s.port in (r.0, record s { port = r.1 })

  -- Three reads at most: broken frames and the adapter's echo of `q` are passed over.
  unfoldable pub await :
      (read : W → Bytes × W) (valid : Bytes → Bool) (wire : Wire) (node cmd : ℕ) (q : Bytes)
      → ℕ
      → M W (Option Bytes)
  await read valid wire node cmd q zero s = (none, s)
  await read valid wire node cmd q (suc attempts) s =
      let got = on_port read s in
      let told = tell rx node cmd wire got.0 got.1 in
      let again = await read valid wire node cmd q attempts told.1 in
      if is_empty got.0
      then (none, got.1)
      else if valid got.0 && not (bytes_eq got.0 q)
      then (some got.0, told.1)
      else again

  unfoldable pub exchange :
      (Bytes → W → Bool × W)
      → (W → Bytes × W)
      → (Bytes → Bool)
      → Wire
      → ℕ
      → ℕ
      → Bytes
      → M W (Option Bytes)
  exchange write read valid wire node cmd q = do
    tell tx node cmd wire q
    sent ← on_port (write q)
    if sent then await read valid wire node cmd q 3 else (do tell info node cmd wire q; pure none)

module _ {W : Type 0} (io : Port W) where
  unfoldable pub transact : ℕ → ℕ → Bytes → ℕ → M W (Option Bytes)
  transact node cmd bytes timeout =
      exchange io.write_all (io.read_frame timeout) valid_frame standard node cmd
        (frame node cmd bytes)

  unfoldable pub transact_extended : ℕ → ℕ → Bytes → ℕ → M W (Option Bytes)
  transact_extended node cmd bytes timeout =
      let q = extended_frame node cmd bytes in
      if is_empty q
      then pure none
      else exchange io.write_all (io.read_extended_frame timeout) valid_extended_frame extended node
          cmd q
