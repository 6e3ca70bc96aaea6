-- ===== src/Core/Language.antt =====
-- packages/core/src/types.ts: the enumerations of languages, isolation levels and runtimes.
pub data Language : Type 0 where
  python javascript typescript go rust java cpp csharp php ruby shell : Language

pub data IsolationLevel : Type 0 where
  standard strong maximum : IsolationLevel

pub data RuntimeType : Type 0 where
  firecracker gvisor kata : RuntimeType

pub data Architecture : Type 0 where
  arm64 amd64 : Architecture
