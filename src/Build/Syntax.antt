-- ===== src/Build/Syntax.antt =====
-- The part of go/ast that build/build.go reads and changes. A slice whose entries the code sets to
-- nil holds options. An import specification is a cell, since `File.Imports` and the declarations
-- share it.
use gopherjs.Base.{ℕ, Bool, Option, List}
use gopherjs.Base.Bytes.{Bytes}

-- The texts of an `ast.CommentGroup`.
abbrev pub CommentGroup : Type 0
CommentGroup = List Bytes

-- A selector expression `base.name` whose operand is an identifier. `bound` says that the parser
-- has found the identifier's object in the file, that is `Obj != nil`.
pub record SelectorExpr : Type 0 where
  pub base : Bytes
  pub bound : Bool

-- What is read of an expression, a type or a body: the selectors and the comment groups that
-- `ast.Inspect` meets in it, in its order.
pub record Code : Type 0 where
  pub selectors : List SelectorExpr
  pub groups : List CommentGroup

pub data RecvType : Type 0 where
  index_list_expr index_expr star_expr : RecvType → RecvType
  ident : Bytes → RecvType
  other_expr : RecvType

-- The receiver, the type parameters, the parameters and the results of a function. `recv` has the
-- types of `Recv.List`, and is empty where `Recv` is nil.
pub record Signature : Type 0 where
  pub recv : List RecvType
  pub code : Code

pub record FuncDecl : Type 0 where
  pub doc : List CommentGroup
  pub name : Bytes
  pub signature : Signature
  pub body : Code

pub record ImportSpec : Type 0 where
  pub groups : List CommentGroup
  pub name : Option Bytes
  pub path : Bytes

pub record TypeSpec : Type 0 where
  pub doc : List CommentGroup
  pub name : Bytes
  pub code : Code
  pub comment : List CommentGroup

pub record ValueSpec : Type 0 where
  pub doc : List CommentGroup
  pub names : List (Option Bytes)
  pub type_code : Code
  pub values : List (Option Code)
  pub comment : List CommentGroup

pub data Spec : Type 0 where
  import_spec : ℕ → Spec
  type_spec : TypeSpec → Spec
  value_spec : ValueSpec → Spec

pub data GenToken : Type 0 where
  import_token const_token type_token var_token : GenToken

pub record GenDecl : Type 0 where
  pub doc : List CommentGroup
  pub token : GenToken
  pub specs : List (Option Spec)

pub data Decl : Type 0 where
  func_decl : FuncDecl → Decl
  gen_decl : GenDecl → Decl

-- `comments` is `File.Comments`, and `cell` the import specifications by their addresses.
pub record File : Type 0 where
  pub doc : List CommentGroup
  pub decls : List (Option Decl)
  pub imports : List (Option ℕ)
  pub comments : List CommentGroup
  pub cell : ℕ → ImportSpec
