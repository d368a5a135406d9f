-- ===== src/Types/Namespace.antt =====
-- src/types/mod.rs: `NamespaceId`, the builtin namespaces.
use yabumi.Common.{Option, some, none, if◌then◌else◌, Text, text, text_eq}

pub data NamespaceId : Type 0 where
  fs http env proc time rand regex math json csv yaml toml : NamespaceId

-- `NamespaceId::from_name`
unfoldable pub namespace_from_name : Text → Option NamespaceId
namespace_from_name name =
    if text_eq name (text "fs")
    then some NamespaceId.fs
    else if text_eq name (text "http")
    then some NamespaceId.http
    else if text_eq name (text "env")
    then some NamespaceId.env
    else if text_eq name (text "proc")
    then some NamespaceId.proc
    else if text_eq name (text "time")
    then some NamespaceId.time
    else if text_eq name (text "rand")
    then some NamespaceId.rand
    else if text_eq name (text "regex")
    then some NamespaceId.regex
    else if text_eq name (text "math")
    then some NamespaceId.math
    else if text_eq name (text "json")
    then some NamespaceId.json
    else if text_eq name (text "csv")
    then some NamespaceId.csv
    else if text_eq name (text "yaml")
    then some NamespaceId.yaml
    else if text_eq name (text "toml")
    then some NamespaceId.toml
    else none
