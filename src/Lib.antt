-- ===== src/Lib.antt =====
-- Verification library of the tools of the opcua-drafts repository. The repository holds drafts of
-- OPC UA specifications and the Python tools beside them; this library models the tools whose
-- results other parts rely on.
--
-- The parts and their files:
-- - Prelude: shared names, the Boolean tests on numbers, lists, Python's integers (ℤ), its
--   exceptions as values (Errors: Result, Error), lists of texts as sets (Elements) and dicts as
--   association lists (Dict). Unseen counts what a search has left.
-- - Base64 and Text: what the tools use of Python's `base64`, `str`, `int`, `hex` and `uuid`, on
--   texts as lists of characters and on bytes as numbers below 256.
-- - Encoding: extras/core-specs/_common/opcua_enc. Types models types.py (BuiltInType, the type
--   descriptors, Struct); Values models values.py (one type `Obj` with a constructor for each
--   class of value, and canonical_equal). Control models json_control.py: Registry the
--   TypeRegistry, Access the attributes that the code reads, Encode `encode_value` and
--   the `_encode_*` functions, Decode `decode_value` and the `_decode_*` functions. Typed says
--   which values of a descriptor are given back; RoundTrip and its children are about decoding what was
--   encoded, one part of a value at a time (Scalars, Names, Parts, Keys, Members, Structures,
--   Variants, Sparse, Records), and Values ties them together.
--   SymbolicId models symbolic_id.py from the labels of an identity on (normalize_label,
--   symbolic_id, is_valid_xregistry_id); Labels and Parts are about stripping, cutting and joining,
--   Validity about the pattern of ids.
--   NodeSet models nodeset.py on records of the XML attributes: `Loader` is the state of _Loader,
--   Resolving has its methods; Described says what a descriptor in the cache says of its element,
--   Sound what that state holds, Walk and Complete are about the nested calls of
--   _resolve_datatype, Load about the whole document.
--   HexDump models hexdump.py: assert_contiguous and the chunks that hex_table shows.
-- - Arrow.NodeIdText: extras/core-specs/arrow-encoding/tools/arrow_codec.py, the functions
--   _nodeid_to_text, _nodeid_from_text, _expandednodeid_to_text and _expandednodeid_from_text.
-- - Release: release/tools. Manifest models the class Manifest of manifest.py: spec, spec_ids,
--   closure, vendor, dependents, _release_group_members and _relation_closure, whose inner
--   function `visit` is a walk with the state `Visited`; Walk is about the walk for any
--   successor function, Known about the ids that it meets, Links about its successor lists, Closure and
--   Vendored about what the operations return. Relations and
--   Relations.Loops model _validate_relations, Cycles its search for cycles (Paths, Visit and Acyclic
--   are about its stack and the order of its visits); Groups, Sound, Valid and Returns are about the
--   messages. Overlaps models _is_under, _own_file_set and _validate_overlaps, Owners is about
--   what the latter accepts. Publishers and PublisherIds are about _validate_publisher_specs. Routes
--   models review_routes.py: relative_path, under, Mapping and Route; its
--   children are about the paths that are accepted (Paths), the two directions of a mapping
--   (Translation) and the choice among the mappings of a route (Longest). Routes.Export models
--   route_for, closure_routes, owner_for_public and public_file_map on a record `Plan` of what they
--   read of the manifest; ClosureRoutes and Collisions are about what they return. Spec models
--   moving_specs and vendor_specs of release_spec.py, Vendors and Agreement are about vendor_specs
--   and Manifest.vendor.
-- - Word: word-drafts/tools/opcdocx. DocModel models docmodel.py: the runs and blocks, the class
--   DocModel, source_key and owner_of; Regions, RoundTrip and Keys are about them. Markdown models
--   md_parse.py: the patterns of its lines, Sections split_sections (Laid and Split are about it),
--   Rows _split_row, and Blocks the class BlockParser. Grammar states the blocks of a document as a
--   relation on its lines, Readers, Single and Parsed are about the loops of `parse`, Coverage about spans
--   and addresses. Ingest models block_spans, locate and apply_edits of ../ingest_docx.py and its
--   child Plan plan_paragraph_edit; Spans, Hits, Edits, Unique and Planned are about them.
--
-- How the parts interact: the Arrow codec writes the NodeIds of Encoding.Values; json_control reads
-- descriptors of Types through the registry; review_routes takes the closure of a manifest for the
-- specifications whose routes it compares; md_parse.py makes the blocks of docmodel.py.
--
-- Fuel: encode_value and decode_value recurse over values through a registry, so they take fuel,
-- which stands for Python's stack; the nesting depth of the value is enough. `visit` takes fuel as
-- well; one more than the number of specifications is enough, because each nested call marks a
-- known id that was not seen.
--
-- `_resolve_datatype` takes one unit of fuel more than the document has ids, because each nested
-- call has one more id in progress.
--
-- `visit_cycles` takes one unit more than there are specifications, because each nested call has
-- one more id on the stack.
--
-- `parse_from` takes one unit for each line, because each round of its loop takes a line.
--
-- `hits_from` takes two units more than the line has characters, because each round starts further
-- to the right.
--
-- `pop_labels` has one unit of fuel for each label, which its loop removes.
--
-- Representation: a dict is an association list. An exception is a value of Error; `outside` marks
-- an operand for which the model does not say what Python does (texts that `int` reads in another
-- form, a float, an attribute of an unexpected class). Floats are their 64 bits;
-- struct.pack("<f") is the parameter single_bits, which is none where it raises OverflowError. Python does not fix the order of a set; the model
-- keeps the order of insertion.
--
-- Parameters: single_bits, the digest of the disambiguator (8 hexadecimal digits of SHA-256), str.lower,
-- the labels that split_identity finds with urllib, the decimal digits of `\d`, and what
-- parse_inline makes of a text (the field inline of Parser), the opcodes of difflib, and the files
-- below a path that _walk_files of manifest.py finds.
--
-- Not modelled: json.dumps and json.loads around the JSON documents; the column code of
-- arrow_codec.py, which calls pyarrow; file-system walks, Git and the rewriting of Markdown in
-- release/tools; the generators and validators of single specifications; the writers of
-- word-drafts/tools over Office Open XML.
pub mod Prelude
pub mod Unseen
pub mod Base64
pub mod Text
pub mod Encoding
pub mod Arrow
pub mod Release
pub mod Word
