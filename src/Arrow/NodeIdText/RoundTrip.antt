-- ===== src/Arrow/NodeIdText/RoundTrip.antt =====
-- Reading back the text of a NodeId and of an ExpandedNodeId.
use Prim.Native.String.{String, ◌∷◌}
use opcua_drafts.Prelude.{
  ℤ, pos, none, some, ◌≡◌, refl, sym, ap, ◌∙◌, ok, int_eq, int_eq_iff, Bool-cases, inl, inr,
}
use opcua_drafts.Base64.{b64encode}
use opcua_drafts.Base64.RoundTrip.{b64decode-b64encode}
use opcua_drafts.Text.{
  append, append_assoc, remove_prefix, remove_prefix-append, split_at, split_at-append, Lacks,
}
use opcua_drafts.Text.Decimal.{to_text, parse_int, parse_int-to_text, to_text-Lacks}
use opcua_drafts.Text.Uuid.{uuid_text, uuid_bytes-uuid_text}
use opcua_drafts.Encoding.Values.{
  IdType, Identifier, number, text, guid_bytes, opaque_bytes, NodeId,
}
use opcua_drafts.Encoding.Control.Typed.{IsIdentifier, IsNodeId}
use opcua_drafts.Encoding.Control.RoundTrip.Identifiers.{make_guid_lem}
use opcua_drafts.Arrow.NodeIdText.{
  identifier_text, node_id_to_text, body_from_text, node_id_from_text,
}

-- The text behind the namespace: it is read back, and no prefix of an outer form begins it.
record BodyTrip (ns : ℤ) (t : IdType) (i : Identifier) : Type 0 where
  body : String
  writes : identifier_text t i ≡ ok body
  reads : body_from_text ns body ≡ ok (record { namespace = ns; id_type = t; identifier = i })
  no_namespace : remove_prefix "ns=" body ≡ none
  no_server : remove_prefix "svr=" body ≡ none
  no_uri : remove_prefix "nsu=" body ≡ none

body_trip : (ns : ℤ) (t : IdType) (i : Identifier) → IsIdentifier t i → BodyTrip ns t i
unfolding identifier_text body_from_text split_at remove_prefix
body_trip ns IdType.numeric (number n) h = record {
  body = append "i=" (to_text n);
  writes = refl;
  reads = rw (parse_int-to_text n);
  no_namespace = refl;
  no_server = refl;
  no_uri = refl;
}
body_trip ns IdType.string (text s) h = record {
  body = append "s=" s;
  writes = refl;
  reads = refl;
  no_namespace = refl;
  no_server = refl;
  no_uri = refl;
}
body_trip ns IdType.guid (guid_bytes bs) h = record {
  body = append "g=" (uuid_text bs);
  writes = refl;
  reads = rw (uuid_bytes-uuid_text bs h.0 h.1, make_guid_lem bs h);
  no_namespace = refl;
  no_server = refl;
  no_uri = refl;
}
body_trip ns IdType.opaque (opaque_bytes bs) h = record {
  body = append "b=" (b64encode bs);
  writes = refl;
  reads = rw (b64decode-b64encode bs h);
  no_namespace = refl;
  no_server = refl;
  no_uri = refl;
}
body_trip ns _ _ h = absurd h

-- A number between a prefix and a semicolon.
pub prefixed :
    (p s rest : String) → append (append p (append s ";")) rest ≡ append p (append s (";" ∷ rest))
prefixed p s rest = append_assoc p (append s ";") rest ∙ ap (append p) (append_assoc s ";" rest)

pub record TextTrip (n : NodeId) : Type 0 where
  pub written : String
  pub writes : node_id_to_text n ≡ ok written
  pub reads : node_id_from_text written ≡ ok n
  pub no_server : remove_prefix "svr=" written ≡ none
  pub no_uri : remove_prefix "nsu=" written ≡ none

-- Where a prefixed number stands in front, it is found.
pub split_prefixed :
    (p s rest : String)
    → Lacks ";" s
    → (r : String) × (remove_prefix p (append (append p (append s ";")) rest) ≡ some r)
      × (split_at ";" r ≡ some (s, rest))
split_prefixed p s rest l = (
  append s (";" ∷ rest),
  rw (prefixed p s rest, remove_prefix-append p (append s (";" ∷ rest))),
  split_at-append ";" s rest l,
)

node_id_from_text-of_namespace :
    (s r a b : String) (ns : ℤ)
    → remove_prefix "ns=" s ≡ some r
    → split_at ";" r ≡ some (a, b)
    → parse_int a ≡ ok ns
    → node_id_from_text s ≡ body_from_text ns b
unfolding node_id_from_text
node_id_from_text-of_namespace s r a b ns e h p = rw (e, node_id_from_text) (rw h (rw p))

node_id_from_text-of_body :
    (s : String) → remove_prefix "ns=" s ≡ none → node_id_from_text s ≡ body_from_text (pos 0) s
unfolding node_id_from_text
node_id_from_text-of_body s e = rw (e, node_id_from_text)

pub text_trip : (n : NodeId) → IsNodeId n → TextTrip n
unfolding node_id_to_text
text_trip n h =
    let b = body_trip n.namespace n.id_type n.identifier h in
    elim (Bool-cases (int_eq n.namespace (pos 0))) [
      | inl e ↦ record {
        written = b.body;
        writes = rw (b.writes, e);
        reads =
            node_id_from_text-of_body b.body b.no_namespace
            ∙ ap (λ ns. body_from_text ns b.body) (sym ((int_eq_iff n.namespace (pos 0)).0 e))
            ∙ b.reads;
        no_server = b.no_server;
        no_uri = b.no_uri;
      }
      | inr e ↦
          let (r, found, split) =
            split_prefixed "ns=" (to_text n.namespace) b.body (to_text-Lacks n.namespace) in
          record {
            written = append (append "ns=" (append (to_text n.namespace) ";")) b.body;
            writes = rw (b.writes, e);
            reads =
                node_id_from_text-of_namespace _ r (to_text n.namespace) b.body n.namespace found
                  split (parse_int-to_text n.namespace)
                ∙ b.reads;
            no_server = unfold remove_prefix in refl;
            no_uri = unfold remove_prefix in refl;
          }
    ]

-- A NodeId whose identifier is of the kind that its IdType names is read back from its text.
pub node_id_from_text-node_id_to_text :
    (n : NodeId)
    → IsNodeId n
    → (s : String) × (node_id_to_text n ≡ ok s) × (node_id_from_text s ≡ ok n)
node_id_from_text-node_id_to_text n h = let t = text_trip n h in (t.written, t.writes, t.reads)
