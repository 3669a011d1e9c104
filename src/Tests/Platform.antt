-- ===== src/Tests/Platform.antt =====
-- The packages of the block store, as functions that run: a cipher that puts a tag of one byte in front,
-- a hash that looks at the first byte, and a cache that keeps everything.
use united.Prelude.{
  ◌≡◌, ◌≢◌, refl, sym, true, String, [], ◌∷◌, Option, none, some, inl, arith, ◌==◌, if◌then◌else◌,
}
use united.Prelude.Dict.{
  Dict, lookup, insert, erase, lookup-insert_self, lookup-insert_ne, lookup-erase_self,
  lookup-erase_ne,
}
use united.Blocks.Types.{Buffer}
use united.Blocks.Crypto.{Cipher, Sodium}
use united.Blocks.Cache.{LruPackage}
use united.Blocks.Store.{Platform}

abbrev untag : Buffer → Option Buffer
untag [] = none
untag (tag ∷ text) = some text

abbrev plain_cipher : Cipher
plain_cipher = record {
  tag_size = 1;
  encrypt = λ text nonce key. 99 ∷ text;
  decrypt = λ sealed nonce key. untag sealed;
  length-encrypt = λ text nonce key. omega arith;
  decrypt-encrypt = λ text nonce key. refl;
}

abbrev pub plain_sodium : Sodium
plain_sodium = record { aes_available = true; aes256gcm = plain_cipher; xchacha20 = plain_cipher }

abbrev first_byte_hash : Buffer → String
first_byte_hash [] = "none"
first_byte_hash (b ∷ bs) = if b == 1 then "one" else "other"

abbrev put_in : String → Buffer → Dict Buffer → Option (Dict Buffer)
put_in k [] d = none
put_in k (b ∷ bs) d = some (insert k (b ∷ bs) d)

pub put_in_self :
    (k : String) (v : Buffer) (c c' : Dict Buffer) → put_in k v c ≡ some c' → lookup k c' ≡ some v
put_in_self k [] c c' e = absurd (cc)
put_in_self k (b ∷ bs) c c' e =
    let is : insert k (b ∷ bs) c ≡ c' = cc in rw (sym is) (lookup-insert_self k (b ∷ bs) c)

pub put_in_ne :
    (k j : String) (v : Buffer) (c c' : Dict Buffer)
    → put_in k v c ≡ some c'
    → k ≢ j
    → lookup j c' ≡ lookup j c
put_in_ne k j [] c c' e ne = absurd (cc)
put_in_ne k j (b ∷ bs) c c' e ne =
    let is : insert k (b ∷ bs) c ≡ c' = cc in rw (sym is) (lookup-insert_ne k j (b ∷ bs) c ne)

pub put_in_nonempty :
    (k : String) (v : Buffer) (c : Dict Buffer)
    → v ≢ []
    → (c' : Dict Buffer) × (put_in k v c ≡ some c')
put_in_nonempty k [] c ne = absurd (ne refl)
put_in_nonempty k (b ∷ bs) c ne = (insert k (b ∷ bs) c, refl)

pub lookup-nothing : (k : String) → lookup {V = Buffer} k [] ≡ none
unfolding lookup
lookup-nothing k = refl

abbrev keeping_lru : LruPackage
keeping_lru = record {
  Cache = Dict Buffer;
  create = λ n. [];
  peek = lookup;
  touch = λ k c. c;
  set = put_in;
  delete = erase;
  clear = λ c. [];
  peek-create = λ n k. lookup-nothing k;
  peek-touch = λ k j c. refl;
  peek-set_self = λ k v c c' e. inl (put_in_self k v c c' e);
  peek-set_ne = λ k j v c c' e ne. inl (put_in_ne k j v c c' e ne);
  set-empty = λ k c. refl;
  set-nonempty = put_in_nonempty;
  peek-delete_self = lookup-erase_self;
  peek-delete_ne = λ k j c ne. inl (lookup-erase_ne k j c ne);
  peek-clear = λ k c. lookup-nothing k;
}

abbrev pub plain_platform : Platform
plain_platform = record { sodium = plain_sodium; sha256_hex = first_byte_hash; lru = keeping_lru }
