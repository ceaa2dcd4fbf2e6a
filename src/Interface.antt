-- ===== src/Interface.antt =====
-- `PrintInterface` and `GenerateInterface` of kotlin_generator.cpp
-- (rsocket-rpc-protobuf/src/kotlin_plugin/cpp/kotlin_generator.cpp): the file that declares a
-- service's interface with its constants.
pub mod Layout
pub mod Variables
pub mod Constants
pub mod Kept
use rsocket_rpc_kotlin.Base.{
  Bytes, codes, Bool, true, false, List, [], ◌∷◌, ◌++◌, Option, none, some, if◌then◌else◌, is_empty,
}
use rsocket_rpc_kotlin.Printer.{Action, assign, print, print_with, print_raw, indent, outdent, each}
use rsocket_rpc_kotlin.Descriptor.{
  ServiceDescriptor, MethodDescriptor, FileDescriptor, ProtoFlavor, Protobuf, Macros,
}
use rsocket_rpc_kotlin.Names.{
  service_field_name, method_field_name, lower_method_name, message_full_kotlin_name,
}
use rsocket_rpc_kotlin.Package.{
  service_kotlin_package, package_line, package_variable, version_note, under_version,
}
use rsocket_rpc_kotlin.Doc.{write_service_doc_comment, write_method_doc_comment}

-- The assignments under the test of the macro.
unfoldable pub interface_version : Macros → List Action
interface_version macros =
    assign "rsocket_rpc_version"
      (version_note (codes "rsocket_rpc_version") macros.rsocket_rpc_version)
    ∷ []

-- The variables of the service, its comment and the lines up to the constants.
unfoldable pub interface_variables : Macros → ServiceDescriptor → Bool → List Action
interface_variables macros service disable_version =
    assign "service_name" service.name
    ∷ assign "service_field_name" (service_field_name service)
    ∷ assign "file_name" service.file.name
    ∷ assign "rsocket_rpc_version" []
    ∷ under_version macros disable_version (interface_version macros)

unfoldable pub interface_header : List Action
interface_header =
    print
      "@$Generated$(\n    value = [\"by RSocket RPC proto compiler$rsocket_rpc_version$\"],\n    comments = \"Source: $file_name$\")\ninterface $service_name$ {\n\n"
    ∷ indent
    ∷ print_raw "companion object {\n"
    ∷ indent
    ∷ print "const val $service_field_name$ = \"$Package$$service_name$\"\n"
    ∷ []

unfoldable pub interface_constant : MethodDescriptor → List Action
interface_constant method =
    assign "method_field_name" (method_field_name method)
    ∷ assign "method_name" method.name
    ∷ print "const val $method_field_name$ = \"$method_name$\"\n"
    ∷ []

-- The parameter list of a method.
unfoldable pub interface_parameters : Bool → List Action
interface_parameters client_streaming =
    if client_streaming
    then print "(message: $Publisher$<$input_type$>, metadata: $ByteBuf$)\n" ∷ []
    else print "(message: $input_type$, metadata: $ByteBuf$)\n" ∷ []

-- The return type of a method, with a body that fails.
unfoldable pub interface_return : Bool → Bool → Bool → List Action
interface_return client_streaming server_streaming fire_and_forget =
    if server_streaming
    then print
        ":$Flowable$<$output_type$> = $Flowable$.error(UnsupportedOperationException(\"not implemented\"))\n"
      ∷ []
    else if client_streaming
    then print
        ":$Single$<$output_type$> = $Single$.error(UnsupportedOperationException(\"not implemented\"))\n"
      ∷ []
    else if fire_and_forget
    then print
        ":$Completable$ = $Completable$.error(UnsupportedOperationException(\"not implemented\"))\n"
      ∷ []
    else print
        ":$Single$<$output_type$> = $Single$.error(UnsupportedOperationException(\"not implemented\"))\n"
      ∷ []

unfoldable pub interface_method_names : Protobuf → MethodDescriptor → List Action
interface_method_names pb method =
    assign "input_type" (message_full_kotlin_name pb method.input_type)
    ∷ assign "output_type" (message_full_kotlin_name pb method.output_type)
    ∷ assign "lower_method_name" (lower_method_name method)
    ∷ print_raw "\n"
    ∷ []

unfoldable pub interface_fun : List Action
interface_fun = print "fun $lower_method_name$" ∷ []

unfoldable pub interface_method : Protobuf → MethodDescriptor → List Action
interface_method pb method =
    interface_method_names pb method
    ++ (write_method_doc_comment method
        ++ (interface_fun
            ++ (interface_parameters method.client_streaming
                ++ interface_return method.client_streaming method.server_streaming
                    method.options.fire_and_forget)))

unfoldable pub interface_constants_end : List Action
interface_constants_end = outdent ∷ print_raw "}\n" ∷ []

unfoldable pub interface_end : List Action
interface_end = outdent ∷ print_raw "}\n" ∷ []

unfoldable pub print_interface :
    Protobuf → Macros → ServiceDescriptor → ProtoFlavor → Bool → List Action
print_interface pb macros service flavor disable_version =
    interface_variables macros service disable_version
    ++ (write_service_doc_comment service
        ++ (interface_header
            ++ (each interface_constant service.methods
                ++ (interface_constants_end
                    ++ (each (interface_method pb) service.methods ++ interface_end)))))

-- The fully qualified names of classes that are not generated.
unfoldable pub interface_class_names : List Action
interface_class_names =
    assign "Flowable" (codes "io.reactivex.Flowable")
    ∷ assign "Single" (codes "io.reactivex.Single")
    ∷ assign "Publisher" (codes "org.reactivestreams.Publisher")
    ∷ assign "Generated" (codes "javax.annotation.Generated")
    ∷ assign "ByteBuf" (codes "io.netty.buffer.ByteBuf")
    ∷ assign "Completable" (codes "io.reactivex.Completable")
    ∷ assign "Empty" (codes "com.google.protobuf.Empty")
    ∷ []

unfoldable pub generate_interface :
    Protobuf → Macros → ServiceDescriptor → ProtoFlavor → Bool → List Action
generate_interface pb macros service flavor disable_version =
    interface_class_names
    ++ (package_line (service_kotlin_package pb service.file)
        ++ (package_variable service.file
            ++ print_interface pb macros service flavor disable_version))
