-- ===== src/TcpConnection/Acts.antt =====
-- What happens to a connection of src/tcp/TcpConnection.cpp, and what is said in it.
use dwt_src.Prelude.{ℕ, ◌<◌, ◌≡◌, refl, Bool, true, false, List, [], ◌∷◌, ◌++◌, length}
use dwt_src.Bytes.{Bytes}
use dwt_src.TcpConnection.{size_modulus}

-- What happens to a connection, with the most bytes that the system takes in a write.
pub data Act : Type 0 where
  sends : ℕ → Bytes → Act
  writes : ℕ → Act
  shuts : Act

-- The messages fit a `size_t`.
pub data Short : List Act → Type 0 where
  short_none : Short []
  short_sends :
      {n : ℕ} {message : Bytes} {acts : List Act}
      → length message < size_modulus
      → Short acts
      → Short (sends n message ∷ acts)
  short_writes : {n : ℕ} {acts : List Act} → Short acts → Short (writes n ∷ acts)
  short_shuts : {acts : List Act} → Short acts → Short (shuts ∷ acts)

-- The messages up to the first shutdown.
abbrev pub messages : List Act → Bytes
messages [] = []
messages (sends n message ∷ acts) = message ++ messages acts
messages (writes n ∷ acts) = messages acts
messages (shuts ∷ acts) = []

abbrev pub said : Bool → List Act → Bytes
said true acts = messages acts
said false acts = []

abbrev pub spoken : Bool → Bytes → Bytes
spoken true message = message
spoken false message = []

pub said_sends :
    (connected : Bool) (n : ℕ) (message : Bytes) (acts : List Act)
    → said connected (sends n message ∷ acts) ≡ spoken connected message ++ said connected acts
said_sends true n message acts = refl
said_sends false n message acts = refl

pub said_writes :
    (connected : Bool) (n : ℕ) (acts : List Act)
    → said connected (writes n ∷ acts) ≡ said connected acts
said_writes true n acts = refl
said_writes false n acts = refl

pub said_none : (connected : Bool) → said connected [] ≡ []
said_none true = refl
said_none false = refl

abbrev pub connected_after : Bool → List Act → Bool
connected_after connected [] = connected
connected_after connected (sends n message ∷ acts) = connected_after connected acts
connected_after connected (writes n ∷ acts) = connected_after connected acts
connected_after connected (shuts ∷ acts) = connected_after false acts

pub said_shuts : (connected : Bool) (acts : List Act) → said connected (shuts ∷ acts) ≡ []
said_shuts true acts = refl
said_shuts false acts = refl
