-- ===== src/Domain/ParseResult.antt =====
-- internal/core/domain/parse_result.go: what the parser hands to the ingester. Nodes and edges are
-- Go pointers, so `none` is nil. Similarity scores are floats in Go, and scaled integers here.
use veska.Common.{ℕ, Bool, Option, List, String, ℤ}
use veska.Common.Dict.{Dict}
use veska.Domain.Node.{Node}
use veska.Domain.Edge.{Edge}

abbrev pub NodePtr : Type 0
NodePtr = Option Node

abbrev pub EdgePtr : Type 0
EdgePtr = Option (Edge ℕ)

pub record UnresolvedCall : Type 0 where
  pub caller_id : String
  pub callee_name : String
  pub pkg_qualifier : String
  pub is_method_call : Bool
  pub src_line : ℤ
  pub edge_kind : String

pub record ParseFailure : Type 0 where
  pub line : ℤ
  pub message : String

pub record ParseTodo : Type 0 where
  pub line : ℤ
  pub message : String

pub record ParseResult : Type 0 where
  pub nodes : List NodePtr
  pub edges : List EdgePtr
  pub failures : List ParseFailure
  pub todos : List ParseTodo
  pub unresolved_calls : List UnresolvedCall
  pub imports : Dict String String
