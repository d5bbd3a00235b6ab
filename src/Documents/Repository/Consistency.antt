-- ===== src/Documents/Repository/Consistency.antt =====
-- The children of a revision follow its document: every write of the repository to a lifecycle
-- (`block_revision`, `publish_revision`) reaches the document with its chunks, images and tables.
use semiconductor_agent_know.Base.{
  String, true, false, ◌≡◌, ◌∙◌, sym, if◌then◌else◌, ◌⊎◌, inl, inr, Option, some, In, arith,
  Bool-cases, Option-cases, ◌==◌, ==_iff, string_eq, pair_eq,
}
use semiconductor_agent_know.Base.Dict.{Dict, values, map_values, lookup, insert, lookup-insert}
use semiconductor_agent_know.Documents.Kinds.{DocumentLifecycle, lifecycle_eq}
use semiconductor_agent_know.Documents.Model.{
  DocumentRevision, Chunk, ImageAsset, TableAsset, DocumentRevisionSelector,
}
use semiconductor_agent_know.Documents.Store.{
  Store, belongs, set_chunk, set_image, set_table, publish_chunk, set_revision, publish_records,
}
use semiconductor_agent_know.Documents.Store.Access.{In-map_values}
use semiconductor_agent_know.Documents.Repository.{
  Repository, unexpected, block_revision, publish_revision,
}

-- What belongs to one revision does not belong to another.
apart :
    (d r e q x y : String)
    → belongs e q d r ≡ false
    → belongs e q x y ≡ true
    → belongs d r x y ≡ false
apart d r e q x y h b =
    ground (arith, ==_iff x e, ==_iff y q, ==_iff x d, ==_iff y r, ==_iff d e, ==_iff r q)

-- What the three kinds of children have in common.
record Child (V : Type 0) : Type 0 where
  document_id : V → String
  revision : V → String
  lifecycle : V → DocumentLifecycle

module _ {V : Type 0} (child : Child V) where
  -- The children that belong to a revision have its lifecycle.
  abbrev Follows : String → String → DocumentLifecycle → Dict String V → Type 0
  Follows d r l m =
      (v : V)
      → In v (values m)
      → belongs d r (child.document_id v) (child.revision v) ≡ true
      → child.lifecycle v ≡ l

  -- A write of a lifecycle to the children of one revision.
  record Writes (f : V → V) (d r : String) (l : DocumentLifecycle) : Type 0 where
    keeps :
        (v : V) (e q : String)
        → belongs e q (child.document_id (f v)) (child.revision (f v))
          ≡ belongs e q (child.document_id v) (child.revision v)
    sets :
        (v : V)
        → belongs d r (child.document_id v) (child.revision v) ≡ true
        → child.lifecycle (f v) ≡ l
    spares :
        (v : V)
        → belongs d r (child.document_id v) (child.revision v) ≡ false
        → child.lifecycle (f v) ≡ child.lifecycle v

  module _ {f : V → V} {d r : String} {l : DocumentLifecycle} (w : Writes f d r l)
      (m : Dict String V) where
    written_Follows : Follows d r l (map_values f m)
    written_Follows v i b =
        let (u, _, e) = In-map_values f m i in rw e (w.sets u (sym (w.keeps u d r) ∙ rw e at b))

    spared_Follows :
        (e q : String) (k : DocumentLifecycle)
        → belongs e q d r ≡ false
        → Follows e q k m
        → Follows e q k (map_values f m)
    spared_Follows e q k other h v i b =
        let (u, j, p) = In-map_values f m i in
        let b' : belongs e q (child.document_id u) (child.revision u) ≡ true =
          sym (w.keeps u e q) ∙ rw p at b in
        rw p
          (w.spares u (apart d r e q (child.document_id u) (child.revision u) other b') ∙ h u j b')

abbrev chunk_child : Child Chunk
chunk_child = record {
  document_id = λ c. c.document_id;
  revision = λ c. c.revision;
  lifecycle = λ c. c.lifecycle;
}

abbrev image_child : Child ImageAsset
image_child = record {
  document_id = λ i. i.document_id;
  revision = λ i. i.revision;
  lifecycle = λ i. i.lifecycle;
}

abbrev table_child : Child TableAsset
table_child = record {
  document_id = λ t. t.document_id;
  revision = λ t. t.revision;
  lifecycle = λ t. t.lifecycle;
}

module _ (d r : String) (l : DocumentLifecycle) where
  set_chunk-Writes : Writes chunk_child (set_chunk d r l) d r l
  set_chunk-Writes = record {
    keeps = λ v e q. ground arith;
    sets = λ v h. ground arith;
    spares = λ v h. ground arith;
  }

  set_image-Writes : Writes image_child (set_image d r l) d r l
  set_image-Writes = record {
    keeps = λ v e q. ground arith;
    sets = λ v h. ground arith;
    spares = λ v h. ground arith;
  }

  set_table-Writes : Writes table_child (set_table d r l) d r l
  set_table-Writes = record {
    keeps = λ v e q. ground arith;
    sets = λ v h. ground arith;
    spares = λ v h. ground arith;
  }

publish_chunk-Writes :
    (d r version : String)
    → Writes chunk_child (publish_chunk d r version) d r DocumentLifecycle.published
publish_chunk-Writes d r version = record {
  keeps = λ v e q. ground arith;
  sets = λ v h. ground arith;
  spares = λ v h. ground arith;
}

-- Every child of a document in the store has the lifecycle of the document.
pub record Consistent (s : Store) : Type 0 where
  pub follow :
      (d r : String) (doc : DocumentRevision)
      → lookup (d, r) s.documents ≡ some doc
      → Follows chunk_child d r doc.lifecycle s.chunks
        × Follows image_child d r doc.lifecycle s.images
        × Follows table_child d r doc.lifecycle s.tables

module _ (d r : String) (new : DocumentRevision) (s : Store) where
  -- A document of the store after a write: the one that was written, or one that was there.
  found :
      (e q : String) (doc : DocumentRevision)
      → lookup (e, q) (insert (d, r) new s.documents) ≡ some doc
      → ((e ≡ d) × (q ≡ r) × (doc ≡ new))
        ⊎ ((belongs e q d r ≡ false) × (lookup (e, q) s.documents ≡ some doc))
  found e q doc h =
      let k : (if belongs e q d r then some new else lookup (e, q) s.documents) ≡ some doc =
        sym (lookup-insert (d, r) (e, q) new s.documents) ∙ h in
      elim (Bool-cases (belongs e q d r)) [
        | inl b ↦ inl (ground (arith, ==_iff d e), ground (arith, ==_iff r q), ground arith)
        | inr b ↦ inr (b, ground arith)
      ]

  module _ {f : Chunk → Chunk} {g : ImageAsset → ImageAsset} {h : TableAsset → TableAsset}
      (on_chunks : Writes chunk_child f d r new.lifecycle)
      (on_images : Writes image_child g d r new.lifecycle)
      (on_tables : Writes table_child h d r new.lifecycle) where
    write-Consistent :
        Consistent s
        → Consistent (record s {
          documents = insert (d, r) new s.documents;
          chunks = map_values f s.chunks;
          images = map_values g s.images;
          tables = map_values h s.tables;
        })
    write-Consistent c = record {
      follow = λ e q doc k. elim (found e q doc k) [
        | inl (p, p', p'') ↦
            rw (p, p', p'')
              (
                written_Follows chunk_child on_chunks s.chunks,
                written_Follows image_child on_images s.images,
                written_Follows table_child on_tables s.tables,
              )
        | inr (other, old) ↦
            let (i, j, l) = c.follow e q doc old in
            (
              spared_Follows chunk_child on_chunks s.chunks e q doc.lifecycle other i,
              spared_Follows image_child on_images s.images e q doc.lifecycle other j,
              spared_Follows table_child on_tables s.tables e q doc.lifecycle other l,
            )
      ];
    }

module _ (s : Store) (doc : DocumentRevision) (d r : String) (c : Consistent s) where
  pub set_revision-Consistent : (l : DocumentLifecycle) → Consistent (set_revision d r doc l s)
  unfolding set_revision
  set_revision-Consistent l =
      write-Consistent d r (record doc { lifecycle = l }) s (set_chunk-Writes d r l)
        (set_image-Writes d r l) (set_table-Writes d r l) c

  pub publish_records-Consistent :
      (version : String) → Consistent (publish_records d r doc version s)
  unfolding publish_records
  publish_records-Consistent version =
      write-Consistent d r
        (record doc { lifecycle = DocumentLifecycle.published; index_version = version }) s
        (publish_chunk-Writes d r version) (set_image-Writes d r DocumentLifecycle.published)
        (set_table-Writes d r DocumentLifecycle.published) c

module _ (sel : DocumentRevisionSelector) (r : Repository) where
  -- If every chunk, image and table has the lifecycle of its document, then so it is after
  -- `block_revision`, whether that blocks the revision or refuses.
  pub block_revision-Consistent :
      (expected : Option DocumentLifecycle)
      → Consistent r.store
      → Consistent (block_revision sel expected r).1.store
  unfolding block_revision
  block_revision-Consistent expected c =
      elim (Option-cases (lookup (sel.document_id, sel.revision) r.store.documents)) [
        | inl missing ↦ rw (block_revision, missing) c
        | inr (doc, there_is) ↦ elim (Bool-cases (unexpected expected doc.lifecycle)) [
          | inl refused ↦ rw (block_revision, there_is, refused) c
          | inr blocked ↦
              rw (block_revision, there_is, blocked)
                (set_revision-Consistent r.store doc sel.document_id sel.revision c
                  DocumentLifecycle.withdrawn)
        ]
      ]

  -- If every chunk, image and table has the lifecycle of its document, then so it is after
  -- `publish_revision`, whether that publishes the revision or refuses.
  pub publish_revision-Consistent :
      (version : String) → Consistent r.store → Consistent (publish_revision sel version r).1.store
  unfolding publish_revision
  publish_revision-Consistent version c =
      elim (Option-cases (lookup (sel.document_id, sel.revision) r.store.documents)) [
        | inl missing ↦ rw (publish_revision, missing) c
        | inr (doc, there_is) ↦ elim (Bool-cases (doc.lifecycle == DocumentLifecycle.withdrawn)) [
          | inr refused ↦ rw (publish_revision, there_is, refused) c
          | inl withdrawn ↦
              rw (publish_revision, there_is, withdrawn)
                (publish_records-Consistent r.store doc sel.document_id sel.revision c version)
        ]
      ]
