-- ===== src/Output/Cache.antt =====
-- The cache of src/modules/output/mongodb/mongodb.c, and the sockets of
-- src/modules/output/socket/socket_output.c. What the driver makes of a message, and what it
-- answers to an insertion, are parameters.
use mmt_probe.Base.{
  ℕ, ◌<◌, ◌≡◌, refl, ap, sym, ◌∙◌, Bool, true, List, [], ◌∷◌, ◌++◌, append-nil, append_assoc,
  length, Option, none, some, leb, ltb, if◌then◌else◌, arith, Bool-cases, Option-cases, inl, inr,
  ◌>>=◌,
}
use mmt_probe.Base.Bytes.{Bytes}

-- `mongodb_output_t`: `cached` is the first `messages_count` documents of the cache.
pub record Mongo {ℓ} (Document : Type ℓ) : Type ℓ where
  pub cached : List Document
  pub messages_max_limit : ℕ

-- A call of `mongoc_collection_insert_many`: its documents, and whether it succeeds. The documents of
-- one that fails are lost.
pub record Insertion {ℓ} (Document : Type ℓ) : Type ℓ where
  pub documents : List Document
  pub is_done : Bool

module _ {ℓ} {Document : Type ℓ} where
  -- no call where there is nothing to insert
  insert_many : Bool → List Document → List (Insertion Document)
  insert_many is_done [] = []
  insert_many is_done (d ∷ ds) = record { documents = d ∷ ds; is_done = is_done } ∷ []

  -- `mongodb_output_flush_to_database`, of an output that is not NULL: the calls for an
  -- insertion, one at most, and the cache, which is emptied also where the insertion fails.
  pub flush_to_database : Bool → Mongo Document → List (Insertion Document) × Mongo Document
  unfolding insert_many
  flush_to_database is_done mongo = (insert_many is_done mongo.cached, record mongo { cached = [] })

  pub add_document : Bool → Document → Mongo Document → List (Insertion Document) × Mongo Document
  add_document is_done d mongo =
      let added = record mongo { cached = mongo.cached ++ d ∷ [] } in
      if leb mongo.messages_max_limit (length added.cached)
      then flush_to_database is_done added
      else ([], added)

-- `bson_init_from_json` is a parameter: `none` is a message that is not well formatted.
module _ {ℓ} {Document : Type ℓ} (parse : Bytes → Option Document) where
  write_parsed :
      Bool → Option Document → Mongo Document → Option (List (Insertion Document) × Mongo Document)
  write_parsed is_done none mongo = some ([], mongo)
  write_parsed is_done (some d) mongo = some (add_document is_done d mongo)

  -- `mongodb_output_write`; `none`: there is no place of the cache at the index.
  pub mongodb_output_write :
      Bool → Mongo Document → Bytes → Option (List (Insertion Document) × Mongo Document)
  unfolding write_parsed
  mongodb_output_write is_done mongo message =
      if ltb (length mongo.cached) mongo.messages_max_limit
      then write_parsed is_done (parse message) mongo
      else none

  -- The calls of the owner: a write or a flush, each with whether an insertion in it succeeds.
  pub data Operation : Type 0 where
    write : Bytes → Bool → Operation
    flush : Bool → Operation

  pub operate : Operation → Mongo Document → Option (List (Insertion Document) × Mongo Document)
  operate (write message is_done) mongo = mongodb_output_write is_done mongo message
  operate (flush is_done) mongo = some (flush_to_database is_done mongo)

  abbrev pub operate_all :
      List Operation → Mongo Document → Option (List (Insertion Document) × Mongo Document)
  operate_all [] mongo = some ([], mongo)
  operate_all (op ∷ ops) mongo = do
    (first, next) ← operate op mongo
    (others, last) ← operate_all ops next
    some (first ++ others, last)

  abbrev pub or_none : Option Document → List Document
  or_none none = []
  or_none (some d) = d ∷ []

  -- The well formatted messages of the calls, in order.
  abbrev pub documents : List Operation → List Document
  documents [] = []
  documents (write message is_done ∷ ops) = or_none (parse message) ++ documents ops
  documents (flush is_done ∷ ops) = documents ops

  -- The documents of the insertions, in order.
  abbrev pub handed : List (Insertion Document) → List Document
  handed [] = []
  handed (i ∷ is) = i.documents ++ handed is

  handed-append : (is js : List (Insertion Document)) → handed (is ++ js) ≡ handed is ++ handed js
  handed-append [] js = refl
  handed-append (i ∷ is) js =
      ap (λ l. i.documents ++ l) (handed-append is js)
      ∙ sym (append_assoc i.documents (handed is) (handed js))

  handed-insert_many : (b : Bool) (ds : List Document) → handed (insert_many b ds) ≡ ds
  unfolding insert_many
  handed-insert_many b [] = refl
  handed-insert_many b (d ∷ ds) = append-nil (d ∷ ds)

  -- The insertions of a call have what the cache gives up, and the cache stays smaller than its limit.
  pub record Cached (mongo : Mongo Document) (new : List Document)
      (r : List (Insertion Document) × Mongo Document) : Type ℓ where
    pub in_order : handed r.0 ++ r.1.cached ≡ mongo.cached ++ new
    pub has_place : length r.1.cached < r.1.messages_max_limit

  add_document-Cached :
      (b : Bool) (d : Document) (mongo : Mongo Document)
      → length mongo.cached < mongo.messages_max_limit
      → Cached mongo (d ∷ []) (add_document b d mongo)
  unfolding add_document flush_to_database
  add_document-Cached b d mongo h =
      elim (Bool-cases (leb mongo.messages_max_limit (length (mongo.cached ++ d ∷ [])))) [
        | inl e ↦ rw e (record {
          in_order =
              append-nil (handed (insert_many b (mongo.cached ++ d ∷ [])))
              ∙ handed-insert_many b (mongo.cached ++ d ∷ []);
          has_place = omega arith;
        })
        | inr e ↦ rw e (record { in_order = refl; has_place = ground arith })
      ]

  operate-Cached :
      (op : Operation) (mongo : Mongo Document)
      → length mongo.cached < mongo.messages_max_limit
      → (r : List (Insertion Document) × Mongo Document) × (operate op mongo ≡ some r)
        × Cached mongo (documents (op ∷ [])) r
  unfolding operate mongodb_output_write write_parsed
  operate-Cached (write message b) mongo h =
      let fits : ltb (length mongo.cached) mongo.messages_max_limit ≡ true = ground arith in
      rw fits (elim (Option-cases (parse message)) [
        | inl e ↦
            rw e (
              ([], mongo),
              refl,
              record { in_order = sym (append-nil mongo.cached); has_place = h },
            )
        | inr (d, e) ↦ rw e (add_document b d mongo, refl, add_document-Cached b d mongo h)
      ])
  operate-Cached (flush b) mongo h = (flush_to_database b mongo, refl, flushed b mongo h)
    where
      flushed :
          (b : Bool) (m : Mongo Document)
          → length m.cached < m.messages_max_limit
          → Cached m [] (flush_to_database b m)
      flushed b m h =
          unfold flush_to_database in
          record {
            in_order =
                append-nil (handed (insert_many b m.cached))
                ∙ handed-insert_many b m.cached
                ∙ sym (append-nil m.cached);
            has_place = omega arith;
          }

  documents-cons :
      (op : Operation) (ops : List Operation)
      → documents (op ∷ ops) ≡ documents (op ∷ []) ++ documents ops
  documents-cons (write message b) ops =
      ap (λ l. l ++ documents ops) (sym (append-nil (or_none (parse message))))
  documents-cons (flush b) ops = refl

  -- From a cache that is smaller than its limit, every sequence of writes and flushes stays within
  -- the places of the cache, whether its insertions succeed or fail; the documents of its insertions
  -- and those still cached are, in order, what was cached and the well formatted messages, each one
  -- once; and there is a place for the next.
  pub operate_all-Cached :
      (ops : List Operation) (mongo : Mongo Document)
      → length mongo.cached < mongo.messages_max_limit
      → (r : List (Insertion Document) × Mongo Document) × (operate_all ops mongo ≡ some r)
        × Cached mongo (documents ops) r
  operate_all-Cached [] mongo h =
      (([], mongo), refl, record { in_order = sym (append-nil mongo.cached); has_place = h })
  operate_all-Cached (op ∷ ops) mongo h =
      let (a, e, b) = operate-Cached op mongo h in
      let (r, f, c) = operate_all-Cached ops a.1 b.has_place in
      (
        (a.0 ++ r.0, r.1),
        rw (e, f) refl,
        record {
          in_order =
              ap (λ l. l ++ r.1.cached) (handed-append a.0 r.0)
              ∙ append_assoc (handed a.0) (handed r.0) r.1.cached
              ∙ ap (λ l. handed a.0 ++ l) c.in_order
              ∙ sym (append_assoc (handed a.0) a.1.cached (documents ops))
              ∙ ap (λ l. l ++ documents ops) b.in_order
              ∙ append_assoc mongo.cached (documents (op ∷ [])) (documents ops)
              ∙ ap (λ l. mongo.cached ++ l) (sym (documents-cons op ops));
          has_place = c.has_place;
        },
      )
