-- ===== src/Verify/Documents.antt =====
-- What a reply says, as JSON documents, and its tokens.
use cynative.Base.{List, [], ◌∷◌, Memᴰ, Str}
use cynative.Verify.Walk.{Token, open_object, close_object, open_array, close_array, scalar, text}

mutual
  pub data Json : Type 0 where
    word : Str → Json
    atom : Json
    array : Items → Json
    object : Members → Json

  pub data Items : Type 0 where
    end : Items
    item : Json → Items → Items

  pub data Members : Type 0 where
    done : Members
    member : Str → Json → Members → Members

-- The tokens of a document, before others.
unfoldable mutual
  pub emit : Json → List Token → List Token
  emit (word s) ts = text s ∷ ts
  emit atom ts = scalar ∷ ts
  emit (array js) ts = open_array ∷ emit_items js (close_array ∷ ts)
  emit (object ms) ts = open_object ∷ emit_members ms (close_object ∷ ts)

  pub emit_items : Items → List Token → List Token
  emit_items end ts = ts
  emit_items (item j js) ts = emit j (emit_items js ts)

  pub emit_members : Members → List Token → List Token
  emit_members done ts = ts
  emit_members (member k j ms) ts = text k ∷ emit j (emit_members ms ts)

abbrev pub Distinct : List Str → Type 0
Distinct [] = Unit
Distinct (k ∷ ks) = ¬ Memᴰ k ks × Distinct ks

module _ (lower : Str → Str) where
  unfoldable pub keys : Members → List Str
  keys done = []
  keys (member k j ms) = lower k ∷ keys ms

  -- No object, at any depth, has two keys that `lower` makes one.
  unfoldable mutual
    pub HasNoRepeat : Json → Type 0
    HasNoRepeat (word _) = Unit
    HasNoRepeat atom = Unit
    HasNoRepeat (array js) = HasNoRepeatItems js
    HasNoRepeat (object ms) = Distinct (keys ms) × HasNoRepeatMembers ms

    pub HasNoRepeatItems : Items → Type 0
    HasNoRepeatItems end = Unit
    HasNoRepeatItems (item j js) = HasNoRepeat j × HasNoRepeatItems js

    pub HasNoRepeatMembers : Members → Type 0
    HasNoRepeatMembers done = Unit
    HasNoRepeatMembers (member k j ms) = HasNoRepeat j × HasNoRepeatMembers ms
