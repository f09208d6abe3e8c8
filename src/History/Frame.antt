-- ===== src/History/Frame.antt =====
-- The history as a map from keys to pieces, where one piece enters it, leaves it or changes.
use fio_ssd.Prelude.{
  ap, ℕ, ◌≡◌, ◌≢◌, ◌↔◌, Option, none, some, List, Bool, true, false, if◌then◌else◌,
}
use fio_ssd.History.{Key, same_key, Piece, Hist, key_of, hash}
use fio_ssd.History.Table.{In, Finds, same_key_refl}

-- What the abstract history keeps of a piece.
pub record Content : Type 0 where
  pub nr_blk : ℕ
  pub unique_version : ℕ
  pub on_list : Bool

abbrev pub content_of : Piece → Content
content_of ipo = record {
  nr_blk = ipo.nr_blk;
  unique_version = ipo.unique_version;
  on_list = ipo.on_list;
}

-- `m` with another content, or none, at a key.
abbrev pub put {ℓ} : {A : Type ℓ} → (Key → A) → Key → A → (Key → A)
put m k c l = if same_key k l then c else m l

pub not_same : {k l : Key} → same_key k l ≡ false → k ≢ l
not_same {k} {l} other e = absurd (cc (other, same_key_refl k, ap (same_key k) e))

-- An address has one piece.
pub same_piece :
    (heap : ℕ → Option Piece) (a : ℕ) (p q : Piece) → heap a ≡ some p → heap a ≡ some q → p ≡ q
same_piece heap a p q e e' = cc (e, e')

module _ (jhash : Key → ℕ) where
  abbrev pub bucket_of : Hist → Key → List ℕ
  bucket_of td key = td.iohist_hash (hash jhash key)

  -- The piece at an address of the bucket with this key, and its content.
  pub record Holds (td : Hist) (key : Key) (c : Content) : Type 0 where
    pub address : ℕ
    pub ipo : Piece
    pub inside : In address (bucket_of td key)
    pub live : td.heap address ≡ some ipo
    pub keyed : key_of ipo ≡ key
    pub content : content_of ipo ≡ c

  abbrev pub Stands : Hist → Key → Option Content → Type 0
  Stands td key none = Finds td.heap (bucket_of td key) key none
  Stands td key (some c) = Holds td key c

  -- A node of bucket `h`.
  pub record IsNode (td : Hist) (h a : ℕ) (ipo : Piece) : Type 0 where
    pub live : td.heap a ≡ some ipo
    pub linked : ipo.hash_list ≡ some h
    pub hashed : ipo.hashed ≡ true
    pub keyed : hash jhash (key_of ipo) ≡ h

  -- The nodes of the buckets are pieces with keys of their own, and hold what the map says.
  pub record IsHistory (td : Hist) (m : Key → Option Content) : Type 0 where
    pub nodes : (h a : ℕ) → In a (td.iohist_hash h) → (ipo : Piece) × IsNode td h a ipo
    pub unique :
        (h a b : ℕ) (ipo ipo' : Piece)
        → In a (td.iohist_hash h)
        → In b (td.iohist_hash h)
        → td.heap a ≡ some ipo
        → td.heap b ≡ some ipo'
        → key_of ipo ≡ key_of ipo'
        → a ≡ b
    pub stands : (key : Key) → Stands td key (m key)

  -- In no bucket.
  abbrev pub Out : Hist → ℕ → Type 0
  Out td a = (h : ℕ) → ¬ In a (td.iohist_hash h)

  -- All but `a` is the same.
  pub record AgreeOff (a : ℕ) (td td' : Hist) : Type 0 where
    pub buckets : (h b : ℕ) → b ≢ a → In b (td.iohist_hash h) ↔ In b (td'.iohist_hash h)
    pub heaps : (b : ℕ) → b ≢ a → td'.heap b ≡ td.heap b
