-- ===== src/Descriptor.antt =====
-- What the plug-in reads of protobuf's descriptors, its calls of protobuf that this repository does
-- not define, and the macros that a build may define.
use rsocket_rpc_kotlin.Base.{Bytes, Bool, List, Option}

pub record Descriptor : Type 0 where
  pub full_name : Bytes

pub record SourceLocation : Type 0 where
  pub leading_comments : Bytes
  pub trailing_comments : Bytes

pub record FileDescriptor : Type 0 where
  pub name : Bytes
  pub package_name : Bytes
  pub java_options : Bytes

-- `io.rsocket.rpc.RSocketMethodOptions`, the extension read from a method's options.
pub record RSocketMethodOptions : Type 0 where
  pub fire_and_forget : Bool

pub record MethodDescriptor : Type 0 where
  pub name : Bytes
  pub input_type : Descriptor
  pub output_type : Descriptor
  pub client_streaming : Bool
  pub server_streaming : Bool
  pub options : RSocketMethodOptions
  pub location : Option SourceLocation

pub record ServiceDescriptor : Type 0 where
  pub name : Bytes
  pub file : FileDescriptor
  pub methods : List MethodDescriptor
  pub location : Option SourceLocation

pub data ProtoFlavor : Type 0 where
  normal lite : ProtoFlavor

-- `google::protobuf::compiler::java::ClassName` of a message and of a file, and
-- `google::protobuf::compiler::ParseGeneratorParameter`.
pub record Protobuf : Type 0 where
  pub message_class_name : Descriptor → Bytes
  pub file_class_name : FileDescriptor → Bytes
  pub parse_generator_parameter : Bytes → List (Bytes × Bytes)

-- `none` where a macro is not defined. C++ tells `rsocket_rpc_version` and `RSOCKET_RPC_VERSION`
-- apart.
pub record Macros : Type 0 where
  pub rsocket_rpc_version : Option Bytes
  pub upper_rsocket_rpc_version : Option Bytes
